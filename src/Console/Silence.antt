-- ===== src/Console/Silence.antt =====
-- What is printed at which level.
use spiderfire.Prelude.{
  ℕ, ◌≡◌, refl, ◌∙◌, Bool, true, false, List, [], ◌∷◌, Option, none, some, arith, any, Text,
}
use spiderfire.Console.Printing.{
  Table, not_object, table_throws, table_panics, table_text, silent, Console, Formats, at_least,
  is_debug, find, get_label,
}
use spiderfire.Console.Calls.{
  log, warn_values, error_values, debug_values, trace, group, assert, group_end, count, count_reset,
  time, time_end, time_log, Call, log_call, warn_call, error_call, debug_call, trace_call,
  group_call, assert_call, clear_call, group_end_call, count_call, count_reset_call, time_call,
  time_end_call, time_log_call, call, calls, and_then, reset_found, start_timer, log_timer,
  end_timer, show_table, table_of, table_call,
}

module _ (f : Formats) where
  open f use {Value, is_string, table}

  abbrev pub is_table : Table → Bool
  is_table not_object = false
  is_table table_throws = true
  is_table table_panics = true
  is_table (table_text text) = true

  -- The calls that print at every level: clear, and table of an object.
  abbrev pub prints_anyway : Call f → Bool
  prints_anyway clear_call = true
  prints_anyway (table_call v columns) = is_table (table v columns)
  prints_anyway _ = false

  -- The same output at the same level.
  abbrev pub Same : Console → Console → Type 0
  Same c c' = (c'.output ≡ c.output) × (c'.log_level ≡ c.log_level)

  unfoldable pub Quiet : Console → Option Console → Type 0
  Quiet c none = ⊥
  Quiet c (some c') = Same c c'

  reset_found-Same :
      (key : Text) (o : Option ℕ) (c : Console)
      → c.log_level ≡ silent
      → Same c (reset_found f key o c)
  unfolding at_least
  reset_found-Same key none c l = rw l (refl, refl)
  reset_found-Same key (some n) c l = (refl, refl)

  start_timer-Same :
      (now : ℕ) (key : Text) (o : Option ℕ) (c : Console)
      → c.log_level ≡ silent
      → Same c (start_timer f now key o c)
  unfolding at_least
  start_timer-Same now key none c l = (refl, refl)
  start_timer-Same now key (some n) c l = rw l (refl, refl)

  end_timer-Same :
      (now : ℕ) (key : Text) (o : Option ℕ) (c : Console)
      → c.log_level ≡ silent
      → Same c (end_timer f now key o c)
  unfolding at_least
  end_timer-Same now key none c l = rw l (refl, refl)
  end_timer-Same now key (some n) c l = rw l (refl, refl)

  log_timer-Same :
      (now : ℕ) (key : Text) (vs : List Value) (o : Option ℕ) (c : Console)
      → c.log_level ≡ silent
      → Same c (log_timer f now key vs o c)
  unfolding at_least
  log_timer-Same now key vs none c l = rw l (refl, refl)
  log_timer-Same now key vs (some n) c l = rw l (refl, refl)

  not_so : {A : Type 0} → true ≡ false → A
  not_so h = absurd (clash h)
    where
      clash : true ≡ false → ⊥
      clash e = cc

  show_table-Quiet :
      (v : Value) (t : Table) (c : Console)
      → c.log_level ≡ silent
      → is_table t ≡ false
      → Quiet c (show_table f v t c)
  unfolding Quiet at_least
  show_table-Quiet v not_object c l n = rw l (refl, refl)
  show_table-Quiet v table_throws c l n = not_so n
  show_table-Quiet v table_panics c l n = not_so n
  show_table-Quiet v (table_text text) c l n = not_so n

  call-Quiet :
      (x : Call f) (c : Console)
      → c.log_level ≡ silent
      → prints_anyway x ≡ false
      → Quiet c (call f x c)
  unfolding Quiet call log warn_values error_values debug_values trace assert group group_end count
      count_reset time time_end time_log table_of at_least is_debug
  call-Quiet (log_call vs) c l n = rw l (refl, refl)
  call-Quiet (warn_call vs) c l n = rw l (refl, refl)
  call-Quiet (error_call vs) c l n = rw l (refl, refl)
  call-Quiet (debug_call vs) c l n = rw l (refl, refl)
  call-Quiet (trace_call vs) c l n = rw l (refl, refl)
  call-Quiet (group_call vs) c l n = rw l (refl, refl)
  call-Quiet (assert_call a vs) c l n = rw l (refl, refl)
  call-Quiet clear_call c l n = not_so n
  call-Quiet group_end_call c l n = (refl, refl)
  call-Quiet (count_call x) c l n = rw l (refl, refl)
  call-Quiet (count_reset_call x) c l n =
      reset_found-Same (get_label x) (find (get_label x) c.counts) c l
  call-Quiet (time_call t x) c l n =
      start_timer-Same t (get_label x) (find (get_label x) c.timers) c l
  call-Quiet (time_end_call t x) c l n =
      end_timer-Same t (get_label x) (find (get_label x) c.timers) c l
  call-Quiet (time_log_call t x vs) c l n =
      log_timer-Same t (get_label x) vs (find (get_label x) c.timers) c l
  call-Quiet (table_call v columns) c l n = show_table-Quiet v (table v columns) c l n

  and_then-Quiet :
      (c : Console) (o : Option Console) (k : Console → Option Console)
      → Quiet c o
      → ((d : Console) → Same c d → Quiet d (k d))
      → Quiet c (and_then f o k)
  unfolding Quiet
  and_then-Quiet c none k q h = q
  and_then-Quiet c (some d) k q h = chain (k d) (h d q)
    where
      chain : (o : Option Console) → Quiet d o → Quiet c o
      chain none r = r
      chain (some e) r = (r.0 ∙ q.0, r.1 ∙ q.1)

  -- At the log level None, no sequence of calls of the console without clear, and without table of
  -- an object, panics, prints anything or changes the level.
  pub calls-Quiet :
      (xs : List (Call f)) (c : Console)
      → c.log_level ≡ silent
      → any prints_anyway xs ≡ false
      → Quiet c (calls f xs c)
  unfolding Quiet
  calls-Quiet [] c l n = (refl, refl)
  calls-Quiet (x ∷ xs) c l n =
      and_then-Quiet c (call f x c) (calls f xs) (call-Quiet x c l (ground (arith, n)))
        (λ d q. calls-Quiet xs d (q.1 ∙ l) (ground (arith, n)))
