-- ===== src/Panel/Settings.antt =====
-- internal/panel/client.go: the settings of a node as `UnmarshalJSON` reads them, and the helpers
-- that choose among several spellings of a setting. The same helpers stand in
-- internal/runtime/config.go.
use Prim.Native.Char.{Char, code}
use v2sudoku.Prelude.{
  ℤ, pos, ◌≡◌, ◌↔◌, refl, String, List, [], ◌∷◌, Bool, true, false, ◌||◌, Option, none, some, ◌==◌,
  int_eq, nat_beq, if◌then◌else◌, arith, All, Bool-cases, inl, inr,
}
use v2sudoku.Text.{is_empty}
use v2sudoku.Text.Trim.{trim_space}
use v2sudoku.Panel.{SudokuSettings, HttpMask}

unfoldable pub first_nonempty : List String → String
first_nonempty [] = ""
first_nonempty (value ∷ values) =
    let rest = first_nonempty values in
    if is_empty (trim_space value) then rest else trim_space value

unfoldable pub first_nonzero : List ℤ → ℤ
first_nonzero [] = pos 0
first_nonzero (value ∷ values) =
    let rest = first_nonzero values in if value == pos 0 then rest else value

-- A decoded value that should be a list of texts. The items of a JSON array are given by the text
-- that `fmt.Sprint` makes of each.
pub data TableValue : Type 0 where
  strings : List String → TableValue
  items : List String → TableValue
  text : String → TableValue
  other_value : TableValue

abbrev pub is_separator : Char → Bool
is_separator c =
    nat_beq (code c) b','
    || nat_beq (code c) 10
    || nat_beq (code c) 13
    || nat_beq (code c) 9
    || nat_beq (code c) b' '

abbrev push_field : Char → List String → List String
push_field c [] = String.◌∷◌ c "" ∷ []
push_field c (f ∷ fs) = String.◌∷◌ c f ∷ fs

-- The pieces between the separators, the empty ones too: these are dropped below.
unfoldable pub fields : String → List String
fields String.[] = "" ∷ []
fields (String.◌∷◌ c s) =
    let rest = fields s in if is_separator c then "" ∷ rest else push_field c rest

-- The loops of `toStringSlice`.
unfoldable pub trimmed : List String → List String
trimmed [] = []
trimmed (item ∷ rest) =
    let kept = trimmed rest in if is_empty (trim_space item) then kept else trim_space item ∷ kept

unfoldable pub to_string_slice : TableValue → List String
unfolding trimmed fields
to_string_slice (strings v) = trimmed v
to_string_slice (items v) = trimmed v
to_string_slice (text v) = trimmed (fields v)
to_string_slice other_value = []

abbrev first_filled : List String → List String → List String
first_filled [] rest = rest
first_filled (s ∷ ss) rest = s ∷ ss

unfoldable pub first_nonempty_string_slice : List TableValue → List String
first_nonempty_string_slice [] = []
first_nonempty_string_slice (value ∷ values) =
    first_filled (to_string_slice value) (first_nonempty_string_slice values)

pub record RawHttpMask : Type 0 where
  pub disable : Option Bool
  pub mode : String
  pub tls : Option Bool
  pub host : String
  pub mask_host : String
  pub mask_host_k : String
  pub path_root : String
  pub path_root_k : String
  pub multiplex : String

pub record RawSettings : Type 0 where
  pub master_public_key : String
  pub master_private_key : String
  pub aead : String
  pub aead_method : String
  pub aead_method_k : String
  pub ascii : String
  pub table_type : String
  pub table_type_k : String
  pub padding_min : ℤ
  pub padding_min_k : ℤ
  pub padding_max : ℤ
  pub padding_max_k : ℤ
  pub enable_pure_downlink : Option Bool
  pub enable_pure_downlink_k : Option Bool
  pub multiplex : String
  pub fallback_address : String
  pub suspicious_action : String
  pub custom_table : String
  pub custom_table_k : String
  pub custom_tables : TableValue
  pub custom_tables_k : TableValue
  pub http_mask : RawHttpMask

abbrev pub mask_from_raw : RawHttpMask → HttpMask
mask_from_raw raw = record {
  disable = raw.disable;
  mode = trim_space raw.mode;
  tls = raw.tls;
  mask_host = first_nonempty (raw.mask_host ∷ raw.mask_host_k ∷ raw.host ∷ []);
  host = first_nonempty (raw.mask_host ∷ raw.mask_host_k ∷ raw.host ∷ []);
  path_root = first_nonempty (raw.path_root ∷ raw.path_root_k ∷ []);
  multiplex = trim_space raw.multiplex;
}

-- `UnmarshalJSON`, once `encoding/json` has filled the raw record.
unfoldable pub unmarshal_settings : RawSettings → SudokuSettings
unmarshal_settings raw = record {
  master_public_key = trim_space raw.master_public_key;
  master_private_key = trim_space raw.master_private_key;
  aead = first_nonempty (raw.aead_method ∷ raw.aead_method_k ∷ raw.aead ∷ []);
  aead_method = first_nonempty (raw.aead_method ∷ raw.aead_method_k ∷ raw.aead ∷ []);
  ascii = first_nonempty (raw.table_type ∷ raw.table_type_k ∷ raw.ascii ∷ []);
  table_type = first_nonempty (raw.table_type ∷ raw.table_type_k ∷ raw.ascii ∷ []);
  padding_min = first_nonzero (raw.padding_min ∷ raw.padding_min_k ∷ []);
  padding_max = first_nonzero (raw.padding_max ∷ raw.padding_max_k ∷ []);
  enable_pure_downlink = elim raw.enable_pure_downlink [
    | none ↦ raw.enable_pure_downlink_k
    | some b ↦ some b
  ];
  multiplex = trim_space raw.multiplex;
  fallback_address = trim_space raw.fallback_address;
  suspicious_action = trim_space raw.suspicious_action;
  custom_table = first_nonempty (raw.custom_table ∷ raw.custom_table_k ∷ []);
  custom_tables = first_nonempty_string_slice (raw.custom_tables ∷ raw.custom_tables_k ∷ []);
  http_mask = mask_from_raw raw.http_mask;
}

-- A text of nothing but spaces.
abbrev pub IsBlank : String → Type 0
IsBlank s = is_empty (trim_space s) ≡ true

-- `firstNonEmpty` is empty exactly if every candidate is blank.
pub first_nonempty-is_empty_iff :
    (values : List String) → (is_empty (first_nonempty values) ≡ true) ↔ All IsBlank values
unfolding first_nonempty
first_nonempty-is_empty_iff [] = (λ h. tt, λ h. refl)
first_nonempty-is_empty_iff (value ∷ values) = elim (Bool-cases (is_empty (trim_space value))) [
  | inl blank ↦ (
    λ h. (blank, (first_nonempty-is_empty_iff values).0 (ground (arith, blank, h))),
    λ h. ground (arith, blank, (first_nonempty-is_empty_iff values).1 h.1),
  )
  | inr filled ↦
      (λ h. absurd (ground (arith, filled, h)), λ h. absurd (ground (arith, filled, h.0)))
]

abbrev pub IsFilled : String → Type 0
IsFilled s = is_empty s ≡ false

trimmed-All : (values : List String) → All IsFilled (trimmed values)
unfolding trimmed
trimmed-All [] = tt
trimmed-All (value ∷ values) = elim (Bool-cases (is_empty (trim_space value))) [
  | inl blank ↦ rw blank (trimmed-All values)
  | inr filled ↦ rw filled (filled, trimmed-All values)
]

to_string_slice-All : (value : TableValue) → All IsFilled (to_string_slice value)
unfolding to_string_slice
to_string_slice-All (strings v) = trimmed-All v
to_string_slice-All (items v) = trimmed-All v
to_string_slice-All (text v) = trimmed-All (fields v)
to_string_slice-All other_value = tt

first_filled-All :
    (ss rest : List String)
    → All IsFilled ss
    → All IsFilled rest
    → All IsFilled (first_filled ss rest)
first_filled-All [] rest h k = k
first_filled-All (s ∷ ss) rest h k = h

-- However a panel spells the custom tables, as an array or as one text, in either field: none that
-- the settings hold is empty.
pub unmarshal_settings-custom_tables :
    (raw : RawSettings) → All IsFilled (unmarshal_settings raw).custom_tables
unfolding unmarshal_settings first_nonempty_string_slice
unmarshal_settings-custom_tables raw =
    first_filled-All _ _ (to_string_slice-All raw.custom_tables)
      (first_filled-All _ _ (to_string_slice-All raw.custom_tables_k) tt)
