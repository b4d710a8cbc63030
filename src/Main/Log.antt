-- ===== src/Main/Log.antt =====
-- main.go: the lines of the log. `strings.ToUpper`, `fmt.Sprint` and `strconv.Quote` are parameters, and a
-- value is what stands in its place in `entry.Data`, or nothing for nil.
pub mod Line
mod Tests
use Prim.Native.Char.{Char, code}
use v2sudoku.Prelude.{
  String, string_eq, List, [], ◌∷◌, Bool, true, false, ◌||◌, Option, map, nat_beq, if◌then◌else◌,
}
use v2sudoku.Dict.{lookup}
use v2sudoku.Text.{is_empty, ◌+s+◌}
use v2sudoku.Text.Order.{sort_strings}

-- `log.Entry`; the time is the text that `Format` gives.
pub record Entry (V : Type 0) : Type 0 where
  pub time : String
  pub level : String
  pub message : String
  pub fields : List (String × V)

pub record Printing (V : Type 0) : Type 0 where
  pub to_upper : String → String
  pub sprint : Option V → String
  pub quote : String → String

-- `strings.ContainsAny(text, " \t\r\n\"")`
unfoldable pub needs_quotes : String → Bool
needs_quotes String.[] = false
needs_quotes (String.◌∷◌ c s) =
    nat_beq (code c) 32
    || nat_beq (code c) 9
    || nat_beq (code c) 13
    || nat_beq (code c) 10
    || nat_beq (code c) 34
    || needs_quotes s

module _ {V : Type 0} (printing : Printing V) where
  unfoldable pub compact_log_value : Option V → String
  unfolding needs_quotes
  compact_log_value value =
      let text = printing.sprint value in
      if is_empty text
      then printing.quote text
      else if needs_quotes text
      then printing.quote text
      else text

  -- The loop over the sorted keys.
  unfoldable pub key_values : List (String × V) → List String → String
  unfolding compact_log_value
  key_values items [] = ""
  key_values items (key ∷ keys) =
      " " +s+ key +s+ "=" +s+ compact_log_value (lookup key items) +s+ key_values items keys

  -- `Format`; the builder never fails.
  unfoldable pub format : Entry V → String
  unfolding key_values
  format entry =
      entry.time
      +s+ " "
      +s+ "["
      +s+ printing.to_upper entry.level
      +s+ "] "
      +s+ entry.message
      +s+ key_values entry.fields (sort_strings (map (λ f. f.0) entry.fields))
      +s+ "\n"
