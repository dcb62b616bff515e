-- ===== src/Console/Indents.antt =====
-- What each call makes of the indentation.
use spiderfire.Prelude.{
  ℕ, ◌+◌, ◌-◌, ◌≡◌, refl, ◌∙◌, Bool, true, false, not, ◌&&◌, ◌||◌, List, [], ◌∷◌, Option, none,
  some, if◌then◌else◌, min, max, Text, is_empty, codes,
}
use spiderfire.Console.Printing.{
  LogLevel, info, warn, error, debug, Stream, stdout, stderr, Console, Formats, FormatArg, at_least,
  Table, not_object, table_throws, table_panics, table_text, is_debug, find, get_label, write,
  write_to, stream_of, print_from, print_args, put, log_args, print_indent, format, newline,
}
use spiderfire.Console.Calls.{
  print_line, log, warn_values, error_values, debug_values, trace, group, assert, clear, group_end,
  count, count_reset, time, time_end, time_log, Call, log_call, warn_call, error_call, debug_call,
  trace_call, group_call, assert_call, clear_call, group_end_call, count_call, count_reset_call,
  time_call, time_end_call, time_log_call, call, reset_found, start_timer, log_timer, end_timer,
  show_table, table_of, table_call, asserted, failed, print_stack, complain, next_count,
}

write_to-indents :
    (to : Option Stream) (t : Text) (c : Console) → (write_to to t c).indents ≡ c.indents
write_to-indents none t c = refl
write_to-indents (some to) t c = refl

if-indents :
    (b : Bool) (c d : Console) {i : ℕ}
    → c.indents ≡ i
    → d.indents ≡ i
    → (if b then c else d).indents ≡ i
if-indents true c d h k = h
if-indents false c d h k = k

print_from-indents :
    (to : Option Stream) (first spaced : Bool) (args : List FormatArg) (c : Console)
    → (print_from to first spaced args c).indents ≡ c.indents
print_from-indents to first spaced [] c = refl
print_from-indents to first spaced (a ∷ args) c =
    print_from-indents to false a.spaced args _
    ∙ write_to-indents to a.text _
    ∙ if-indents (not first && (spaced || a.spaced)) _ c (write_to-indents to (codes " ") c) refl

-- What a call makes of the indentation.
pub data Kind : Type 0 where
  opens closes clears stays : Kind

abbrev pub shift : Kind → ℕ → ℕ
shift opens i = min i 65534 + 1
shift closes i = max i 1 - 1
shift clears i = 0
shift stays i = i

module _ (f : Formats) where
  open f use {Value, is_string, stack, table}

  log_args-indents :
      (vs : List Value) (l : LogLevel) (c : Console) → (log_args f vs l c).indents ≡ c.indents
  unfolding log_args print_args
  log_args-indents vs l c =
      if-indents (is_empty vs) c _ refl
        (print_from-indents (stream_of l) true false (format f vs) c)

  print_indent-indents : (l : LogLevel) (c : Console) → (print_indent f l c).indents ≡ c.indents
  unfolding print_indent
  print_indent-indents l c = write_to-indents (stream_of l) _ c

  print_line-indents :
      (l : LogLevel) (to : Stream) (vs : List Value) (c : Console)
      → (print_line f l to vs c).indents ≡ c.indents
  unfolding print_line
  print_line-indents l to vs c = log_args-indents vs l _ ∙ print_indent-indents l c

  abbrev pub kind : Call f → Kind
  kind (group_call vs) = opens
  kind group_end_call = closes
  kind clear_call = clears
  kind _ = stays

  unfoldable pub Indented : ℕ → Option Console → Type 0
  Indented i none = Unit
  Indented i (some c) = c.indents ≡ i

  if-Indented :
      (b : Bool) (m n : Option Console) (i : ℕ)
      → Indented i m
      → Indented i n
      → Indented i (if b then m else n)
  if-Indented true m n i h k = h
  if-Indented false m n i h k = k

  complain-indents : (s l e : Text) (c : Console) → (complain f s l e c).indents ≡ c.indents
  complain-indents s l e c = if-indents (at_least warn c) _ c (print_indent-indents warn c) refl

  reset_found-indents :
      (k : Text) (o : Option ℕ) (c : Console) → (reset_found f k o c).indents ≡ c.indents
  reset_found-indents k none c =
      complain-indents (codes "Count for ") k (codes " does not exist\n") c
  reset_found-indents k (some n) c = refl

  start_timer-indents :
      (t : ℕ) (k : Text) (o : Option ℕ) (c : Console) → (start_timer f t k o c).indents ≡ c.indents
  start_timer-indents t k none c = refl
  start_timer-indents t k (some n) c =
      complain-indents (codes "Timer ") k (codes " already exists\n") c

  log_timer-indents :
      (t : ℕ) (k : Text) (vs : List Value) (o : Option ℕ) (c : Console)
      → (log_timer f t k vs o c).indents ≡ c.indents
  log_timer-indents t k vs none c =
      complain-indents (codes "Timer ") k (codes " does not exist\n") c
  log_timer-indents t k vs (some n) c =
      if-indents (at_least info c) _ c (log_args-indents vs info _ ∙ print_indent-indents info c)
        refl

  end_timer-indents :
      (t : ℕ) (k : Text) (o : Option ℕ) (c : Console) → (end_timer f t k o c).indents ≡ c.indents
  end_timer-indents t k none c = complain-indents (codes "Timer ") k (codes " does not exist\n") c
  end_timer-indents t k (some n) c =
      if-indents (at_least info _) _ _ (print_indent-indents info _) refl

  print_stack-indents : (o : Option Text) (c : Console) → (print_stack f o c).indents ≡ c.indents
  print_stack-indents none c = refl
  print_stack-indents (some t) c = refl

  failed-Indented : (vs : List Value) (c : Console) → Indented c.indents (failed f vs c)
  unfolding Indented
  failed-Indented [] c = print_indent-indents error c
  failed-Indented (v ∷ []) c =
      if-Indented (is_string v) none _ c.indents tt
        (log_args-indents (v ∷ []) error _ ∙ print_indent-indents error c)
  failed-Indented (v ∷ u ∷ vs) c =
      if-Indented (is_string v) _ _ c.indents
        (log_args-indents vs error _ ∙ print_indent-indents error c)
        (log_args-indents (v ∷ u ∷ vs) error _ ∙ print_indent-indents error c)

  pub call-Indented : (x : Call f) (c : Console) → Indented (shift (kind x) c.indents) (call f x c)
  unfolding Indented call log warn_values error_values debug_values trace assert group group_end
      count count_reset time time_end time_log clear table_of
  call-Indented (log_call vs) c =
      if-indents (at_least info c) _ c (print_line-indents info stdout vs c) refl
  call-Indented (warn_call vs) c =
      if-indents (at_least warn c) _ c (print_line-indents warn stderr vs c) refl
  call-Indented (error_call vs) c =
      if-indents (at_least error c) _ c (print_line-indents error stderr vs c) refl
  call-Indented (debug_call vs) c =
      if-indents (is_debug c) _ c (print_line-indents debug stdout vs c) refl
  call-Indented (trace_call vs) c =
      if-indents (is_debug c) _ c
        (print_stack-indents (stack _) _
          ∙ log_args-indents vs debug _
          ∙ print_indent-indents debug c)
        refl
  call-Indented (group_call vs) c =
      let c1 = record c { indents = min c.indents 65534 + 1 } in
      if-indents (at_least info c1) (write stdout newline (log_args f vs info c1)) c1
        (log_args-indents vs info c1) refl
  call-Indented (assert_call a vs) c =
      if-Indented (at_least error c) (asserted f a vs c) (some c) c.indents (by_assertion a) refl
    where
      by_assertion : (a : Option Bool) → Indented c.indents (asserted f a vs c)
      by_assertion none = refl
      by_assertion (some true) = refl
      by_assertion (some false) = failed-Indented vs c
  call-Indented clear_call c = refl
  call-Indented group_end_call c = refl
  call-Indented (count_call x) c =
      let key = get_label x in
      let c1 = record c { counts = put key (next_count f (find key c.counts)) c.counts } in
      if-indents (at_least info c1) _ c1 (print_indent-indents info c1) refl
  call-Indented (count_reset_call x) c =
      reset_found-indents (get_label x) (find (get_label x) c.counts) c
  call-Indented (time_call t x) c =
      start_timer-indents t (get_label x) (find (get_label x) c.timers) c
  call-Indented (time_end_call t x) c =
      end_timer-indents t (get_label x) (find (get_label x) c.timers) c
  call-Indented (table_call v columns) c = by_table (table v columns)
    where
      by_table : (t : Table) → Indented c.indents (show_table f v t c)
      by_table not_object = if-indents (at_least info c) _ c (print_indent-indents info c) refl
      by_table table_throws = refl
      by_table table_panics = tt
      by_table (table_text text) = refl
  call-Indented (time_log_call t x vs) c =
      log_timer-indents t (get_label x) vs (find (get_label x) c.timers) c
