-- ===== src/Console/Printing.antt =====
-- runtime/src/globals/console/mod.rs: the state of the console, and how it prints arguments.
use spiderfire.Prelude.{
  ℕ, Bool, true, false, not, ◌&&◌, ◌||◌, List, [], ◌∷◌, ◌++◌, Option, none, some, if◌then◌else◌,
  leb, ◌==◌, is_empty, Text, codes, same,
}

-- `LogLevel`
pub data LogLevel : Type 0 where
  silent info warn error debug : LogLevel

abbrev pub rank : LogLevel → ℕ
rank silent = 0
rank info = 1
rank warn = 2
rank error = 3
rank debug = 4

-- The standard streams.
pub data Stream : Type 0 where
  stdout stderr : Stream

-- What is printed, and the maps of the thread. A timer is the time when it started.
pub record Console : Type 0 where
  pub log_level : LogLevel
  pub counts : List (Text × ℕ)
  pub timers : List (Text × ℕ)
  pub indents : ℕ
  pub output : List (Stream × Text)

-- The text of an argument and whether spaces stand around it.
pub record FormatArg : Type 0 where
  pub text : Text
  pub spaced : Bool

-- What the rows and columns of `console.table` come to: the value is no object; a key or a value of
-- it throws; a key that is listed has no value, and `unwrap` panics; or the text of the table, for
-- an indentation.
pub data Table : Type 0 where
  not_object table_throws table_panics : Table
  table_text : (ℕ → Text) → Table

pub record Formats : Type 1 where
  pub Value : Type 0
  pub is_string : Value → Bool
  pub format_primitive : Value → Text
  pub format_value_args : List Value → List FormatArg
  pub format_args : List Value → List FormatArg
  pub indent_str : ℕ → Text
  pub digits : ℕ → Text
  pub stack : ℕ → Option Text
  pub format_value : ℕ → Value → Text
  pub table : Value → Option (List Text) → Table

-- A test of the level that is set.
unfoldable pub at_least : LogLevel → Console → Bool
at_least l c = leb (rank l) (rank c.log_level)

unfoldable pub is_debug : Console → Bool
is_debug c = rank c.log_level == 4

abbrev pub write : Stream → Text → Console → Console
write to text c = record c { output = c.output ++ (to, text) ∷ [] }

abbrev pub newline : Text
newline = b'\n' ∷ []

-- The stream of a level; the level None prints nothing.
abbrev pub stream_of : LogLevel → Option Stream
stream_of silent = none
stream_of info = some stdout
stream_of warn = some stderr
stream_of error = some stderr
stream_of debug = some stdout

abbrev pub write_to : Option Stream → Text → Console → Console
write_to none text c = c
write_to (some to) text c = write to text c

-- `print_args`: whether it is the first argument, and whether the one before was spaced.
abbrev pub print_from : Option Stream → Bool → Bool → List FormatArg → Console → Console
print_from to first prev_spaced [] c = c
print_from to first prev_spaced (a ∷ args) c = print_from to false a.spaced args (
    write_to to a.text
      (if not first && (prev_spaced || a.spaced) then write_to to (codes " ") c else c))

unfoldable pub print_args : LogLevel → List FormatArg → Console → Console
print_args level args c = print_from (stream_of level) true false args c

abbrev pub find : Text → List (Text × ℕ) → Option ℕ
find k [] = none
find k ((l, n) ∷ rest) = let later = find k rest in if same l k then some n else later

abbrev pub put : Text → ℕ → List (Text × ℕ) → List (Text × ℕ)
put k v [] = (k, v) ∷ []
put k v ((l, n) ∷ rest) =
    let later = put k v rest in if same l k then (k, v) ∷ rest else (l, n) ∷ later

abbrev pub drop_key : Text → List (Text × ℕ) → List (Text × ℕ)
drop_key k [] = []
drop_key k ((l, n) ∷ rest) =
    let later = drop_key k rest in if same l k then later else (l, n) ∷ later

unfoldable pub get_label : Option Text → Text
get_label none = codes "default"
get_label (some label) = label

module _ (f : Formats) where
  open f use {
    Value, is_string, format_primitive, format_value_args, format_args, indent_str, digits, stack,
  }

  abbrev pub format : List Value → List FormatArg
  format [] = []
  format (v ∷ []) = format_value_args (v ∷ [])
  format (v ∷ w ∷ vs) = format_args (v ∷ w ∷ vs)

  unfoldable pub log_args : List Value → LogLevel → Console → Console
  unfolding print_args
  log_args args level c = if is_empty args then c else print_args level (format args) c

  unfoldable pub print_indent : LogLevel → Console → Console
  print_indent level c = write_to (stream_of level) (indent_str c.indents) c
