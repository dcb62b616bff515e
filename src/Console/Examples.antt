-- ===== src/Console/Examples.antt =====
-- A console whose values are texts.
use spiderfire.Prelude.{
  ◌≡◌, refl, false, true, List, [], ◌∷◌, none, some, Text, codes, arith, is_empty, if◌then◌else◌,
}
use spiderfire.Console.Printing.{
  Formats, FormatArg, silent, error, table_text, not_object, Console, stdout,
}
use spiderfire.Console.Calls.{
  calls, Call, table_call, table_of, call, group_call, group_end_call, count_call, assert_call,
  assert,
}
use spiderfire.Console.Silence.{Quiet, calls-Quiet}
use spiderfire.Console.Nesting.{Closed, calls-Closed}

abbrev as_args : List Text → List FormatArg
as_args [] = []
as_args (v ∷ vs) = record { text = v; spaced = true } ∷ as_args vs

abbrev texts : Formats
texts = record {
  Value = Text;
  is_string = λ v. true;
  format_primitive = λ v. v;
  format_value_args = as_args;
  format_args = as_args;
  indent_str = λ n. [];
  digits = λ n. n ∷ [];
  stack = λ n. none;
  format_value = λ n v. v;
  table = λ v columns. if is_empty v then table_text (λ n. codes "empty") else not_object;
}

abbrev quiet_console : Console
quiet_console = record { log_level = silent; counts = []; timers = []; indents = 3; output = [] }

abbrev program : List (Call texts)
program =
    group_call (codes "a" ∷ [])
    ∷ count_call none
    ∷ assert_call (some false) (codes "b" ∷ [])
    ∷ table_call (codes "c") none
    ∷ group_end_call
    ∷ []

calls-Quiet_example : Quiet texts quiet_console (calls texts program quiet_console)
calls-Quiet_example = calls-Quiet texts program quiet_console refl refl

calls-Closed_example : Closed texts 0 3 (calls texts program quiet_console)
calls-Closed_example = calls-Closed texts program quiet_console refl (omega arith)

-- A failed assertion with one text panics.
one_text :
    assert texts (some false) (codes "b" ∷ []) (record quiet_console { log_level = error }) ≡ none
unfolding assert
one_text = refl

-- A table of an object is printed at the level None.
loud_table :
    call texts (table_call [] none) quiet_console
    ≡ some (record quiet_console { output = (stdout, codes "empty\n") ∷ [] })
unfolding call table_of
loud_table = refl
