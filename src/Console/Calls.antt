-- ===== src/Console/Calls.antt =====
-- runtime/src/globals/console/mod.rs: the functions that scripts call.
use spiderfire.Prelude.{
  ℕ, ◌+◌, ◌-◌, ◌*◌, ◌%◌, ◌^◌, Bool, true, false, List, [], ◌∷◌, ◌++◌, Option, none, some,
  if◌then◌else◌, min, max, Text, codes, same,
}
use spiderfire.Console.Printing.{
  LogLevel, info, warn, error, debug, Stream, stdout, stderr, Console, Formats, at_least, is_debug,
  write, newline, find, put, drop_key, get_label, log_args, print_indent, Table, not_object,
  table_throws, table_panics, table_text,
}

module _ (f : Formats) where
  open f use {Value, is_string, format_primitive, digits, stack, format_value, table}

  -- `log`, `warn` and `error` print at their level; `debug` only if the level is Debug.
  unfoldable pub print_line : LogLevel → Stream → List Value → Console → Console
  unfolding print_indent log_args
  print_line level to args c = write to newline (log_args f args level (print_indent f level c))

  unfoldable pub log : List Value → Console → Console
  unfolding at_least print_line
  log values c = if at_least info c then print_line info stdout values c else c

  unfoldable pub warn_values : List Value → Console → Console
  unfolding at_least print_line
  warn_values values c = if at_least warn c then print_line warn stdout values c else c

  unfoldable pub error_values : List Value → Console → Console
  unfolding at_least print_line
  error_values values c = if at_least error c then print_line error stdout values c else c

  unfoldable pub debug_values : List Value → Console → Console
  unfolding is_debug print_line
  debug_values values c = if is_debug c then print_line debug stdout values c else c

  -- `assert`: `&values[2..]` panics, none, if there is only one value.
  abbrev pub failed : List Value → Console → Option Console
  failed [] c = some (write stderr (codes "Assertion Failed\n") (print_indent f error c))
  failed (v ∷ []) c = if is_string v then none else some (print_failed (v ∷ []) c)
    where
      print_failed : List Value → Console → Console
      print_failed vs c =
          write stdout newline (
            log_args f vs error
              (write stderr (codes "Assertion Failed: ") (print_indent f error c)))
  failed (v ∷ w ∷ vs) c =
      if is_string v
      then some (
          write stderr newline (
            log_args f vs error (
              write stderr (codes "Assertion Failed: " ++ (format_primitive v ++ codes " "))
                (print_indent f error c))))
      else some (
          write stdout newline (
            log_args f (v ∷ w ∷ vs) error
              (write stderr (codes "Assertion Failed: ") (print_indent f error c))))

  abbrev pub asserted : Option Bool → List Value → Console → Option Console
  asserted none values c = some (write stderr (codes "Assertion Failed:\n") c)
  asserted (some true) values c = some c
  asserted (some false) values c = failed values c

  unfoldable pub assert : Option Bool → List Value → Console → Option Console
  unfolding at_least log_args print_indent
  assert assertion values c = if at_least error c then asserted assertion values c else some c

  -- `clear`: the escapes are `\x1b[1;1H` and `\x1b[0J`.
  unfoldable pub clear : Console → Console
  clear c =
      write stdout (0x1b ∷ codes "[0J\n")
        (write stdout (0x1b ∷ codes "[1;1H\n") (record c { indents = 0 }))

  -- `(INDENTS.get() + 1) * 2` is of `u16`.
  abbrev pub print_stack : Option Text → Console → Console
  print_stack none c = write stderr (codes "Current Stack could not be captured.\n") c
  print_stack (some text) c = write stdout (text ++ newline) c

  unfoldable pub trace : List Value → Console → Console
  unfolding is_debug print_indent log_args
  trace values c =
      if is_debug c
      then print_stack (stack ((c.indents + 1) * 2 % 2 ^ 16)) (
          write stdout newline
            (log_args f values debug (write stdout (codes "Trace: ") (print_indent f debug c))))
      else c

  unfoldable pub group : List Value → Console → Console
  unfolding at_least log_args
  group values c =
      let c1 = record c { indents = min c.indents 65534 + 1 } in
      if at_least info c1 then write stdout newline (log_args f values info c1) else c1

  unfoldable pub group_end : Console → Console
  group_end c = record c { indents = max c.indents 1 - 1 }

  -- `o.get() + 1` is of `u32`.
  abbrev pub next_count : Option ℕ → ℕ
  next_count none = 1
  next_count (some n) = (n + 1) % 2 ^ 32

  -- What is printed: `OccupiedEntry::insert` returns the value that was there before.
  abbrev pub shown_count : Option ℕ → ℕ
  shown_count none = 1
  shown_count (some n) = n

  unfoldable pub count : Option Text → Console → Console
  unfolding get_label at_least print_indent same
  count label c =
      let key = get_label label in
      let n = next_count (find key c.counts) in
      let c1 = record c { counts = put key n c.counts } in
      if at_least info c1
      then write stdout
          (key ++ (codes ": " ++ (digits (shown_count (find key c.counts)) ++ newline)))
          (print_indent f info c1)
      else c1

  abbrev pub complain : Text → Text → Text → Console → Console
  complain before label after c =
      if at_least warn c
      then write stderr (before ++ (label ++ after)) (print_indent f warn c)
      else c

  abbrev pub reset_found : Text → Option ℕ → Console → Console
  reset_found key (some n) c = record c { counts = put key 0 c.counts }
  reset_found key none c = complain (codes "Count for ") key (codes " does not exist\n") c

  unfoldable pub count_reset : Option Text → Console → Console
  unfolding get_label at_least print_indent same
  count_reset label c = reset_found (get_label label) (find (get_label label) c.counts) c

  abbrev pub start_timer : ℕ → Text → Option ℕ → Console → Console
  start_timer now key none c = record c { timers = put key now c.timers }
  start_timer now key (some t) c = complain (codes "Timer ") key (codes " already exists\n") c

  unfoldable pub time : ℕ → Option Text → Console → Console
  unfolding get_label at_least print_indent same
  time now label c = start_timer now (get_label label) (find (get_label label) c.timers) c

  abbrev pub duration : Text → ℕ → Text → Console → Console
  duration key ms after c =
      write stdout (key ++ (codes ": " ++ (digits ms ++ (codes "ms " ++ after))))
        (print_indent f info c)

  abbrev pub log_timer : ℕ → Text → List Value → Option ℕ → Console → Console
  log_timer now key values none c = complain (codes "Timer ") key (codes " does not exist\n") c
  log_timer now key values (some start) c =
      if at_least info c
      then write stdout newline (log_args f values info (duration key (now - start) [] c))
      else c

  unfoldable pub time_log : ℕ → Option Text → List Value → Console → Console
  unfolding get_label at_least print_indent log_args same
  time_log now label values c =
      log_timer now (get_label label) values (find (get_label label) c.timers) c

  abbrev pub end_timer : ℕ → Text → Option ℕ → Console → Console
  end_timer now key none c = complain (codes "Timer ") key (codes " does not exist\n") c
  end_timer now key (some start) c =
      let c1 = record c { timers = drop_key key c.timers } in
      if at_least info c1
      then write stdout newline (duration key (now - start) (codes "- Timer Ended") c1)
      else c1

  unfoldable pub time_end : ℕ → Option Text → Console → Console
  unfolding get_label at_least print_indent same
  time_end now label c = end_timer now (get_label label) (find (get_label label) c.timers) c

  -- `table`: an object is printed whatever the level is. `indents * 2` is of `u16`.
  abbrev pub show_table : Value → Table → Console → Option Console
  show_table v not_object c = some (
      if at_least info c
      then write stdout (format_value c.indents v ++ newline) (print_indent f info c)
      else c)
  show_table v table_throws c = some c
  show_table v table_panics c = none
  show_table v (table_text text) c =
      some (write stdout (text (c.indents * 2 % 2 ^ 16) ++ newline) c)

  unfoldable pub table_of : Value → Option (List Text) → Console → Option Console
  unfolding at_least print_indent
  table_of v columns c = show_table v (table v columns) c

  -- A call of a script, at a time.
  pub data Call : Type 0 where
    log_call warn_call error_call debug_call trace_call group_call : List Value → Call
    assert_call : Option Bool → List Value → Call
    clear_call group_end_call : Call
    count_call count_reset_call : Option Text → Call
    time_call time_end_call : ℕ → Option Text → Call
    time_log_call : ℕ → Option Text → List Value → Call
    table_call : Value → Option (List Text) → Call

  unfoldable pub call : Call → Console → Option Console
  unfolding log warn_values error_values debug_values trace group assert clear group_end count
      count_reset time time_end time_log table_of
  call (log_call vs) c = some (log vs c)
  call (warn_call vs) c = some (warn_values vs c)
  call (error_call vs) c = some (error_values vs c)
  call (debug_call vs) c = some (debug_values vs c)
  call (trace_call vs) c = some (trace vs c)
  call (group_call vs) c = some (group vs c)
  call (assert_call a vs) c = assert a vs c
  call clear_call c = some (clear c)
  call group_end_call c = some (group_end c)
  call (count_call l) c = some (count l c)
  call (count_reset_call l) c = some (count_reset l c)
  call (time_call n l) c = some (time n l c)
  call (time_end_call n l) c = some (time_end n l c)
  call (time_log_call n l vs) c = some (time_log n l vs c)
  call (table_call v columns) c = table_of v columns c

  abbrev pub and_then : Option Console → (Console → Option Console) → Option Console
  and_then none k = none
  and_then (some c) k = k c

  abbrev pub calls : List Call → Console → Option Console
  calls [] c = some c
  calls (x ∷ xs) c = and_then (call x c) (calls xs)
