-- ===== src/Main/Log/Tests.antt =====
-- Lines of the log of main.go.
use mathlib.Core.List.Perm
use v2sudoku.Prelude.{
  ◌≡◌, refl, String, string_eq, ◌==◌, [], ◌∷◌, str_eq_iff, Bool-cases, inl, inr, subst, Option,
  none, some,
}
use v2sudoku.Dict.{lookup}
use v2sudoku.Main.Log.{Entry, Printing, format}
use v2sudoku.Main.Log.Line.{has_newline, IsLine, format-Perm, format-IsLine}

abbrev sprint_one : Option String → String
sprint_one none = "<nil>"
sprint_one (some text) = text

-- Quotes that leave the text out, in the place of `strconv.Quote`.
abbrev printing_one : Printing String
printing_one = record { to_upper = λ text. text; sprint = sprint_one; quote = λ text. "\"\"" }

abbrev entry_one : Entry String
entry_one = record {
  time = "2026/01/02 15:04:05";
  level = "INFO";
  message = "started";
  fields = ("node_id", "7") ∷ ("err", "two\nlines") ∷ [];
}

swapped :
    (key : String)
    → lookup key entry_one.fields ≡ lookup key (("err", "two\nlines") ∷ ("node_id", "7") ∷ [])
unfolding lookup
swapped key = elim (Bool-cases ("node_id" == key)) [
  | inl same ↦
      subst
        (λ k. lookup k entry_one.fields ≡ lookup k (("err", "two\nlines") ∷ ("node_id", "7") ∷ []))
        ((str_eq_iff "node_id" key).0 same) refl
  | inr other ↦ rw other refl
]

format-Perm_example :
    format printing_one entry_one
    ≡ format printing_one
        (record entry_one { fields = ("err", "two\nlines") ∷ ("node_id", "7") ∷ [] })
format-Perm_example =
    format-Perm printing_one entry_one (("err", "two\nlines") ∷ ("node_id", "7") ∷ [])
      (Perm.swap "err" "node_id" []) swapped

format-IsLine_example : IsLine (format printing_one entry_one)
unfolding has_newline
format-IsLine_example =
    format-IsLine printing_one (λ text. refl) entry_one refl refl refl (refl, (refl, tt))
