-- ===== src/Runtime/Config.antt =====
-- internal/runtime/config.go: the configuration of a sudoku server, built from a node and the local
-- settings. The library that it is built for completes it (`Finalize`) and recovers keys: both are
-- parameters.
use v2sudoku.Prelude.{
  ℤ, pos, ◌≡◌, ◌≢◌, refl, ap, sym, ◌∙◌, String, List, [], ◌∷◌, Bool, true, false, ◌&&◌, not, Option,
  none, some, ◌==◌, int_eq, if◌then◌else◌, arith, Bool-cases, Option-cases, inl, inr, int_beq_iff,
}
use v2sudoku.Text.{is_empty}
use v2sudoku.Text.Trim.{trim_space}
use v2sudoku.Conf.{RuntimeConfig}
use v2sudoku.Panel.{NodeInfo, SudokuSettings}
use v2sudoku.Panel.Settings.{first_nonempty, first_nonzero}

pub record HttpMaskConfig : Type 0 where
  pub disable : Bool
  pub mode : String
  pub tls : Bool
  pub host : String
  pub path_root : String
  pub multiplex : String

-- The fields of the library's `Config` that the program sets.
pub record SudokuConfig : Type 0 where
  pub mode : String
  pub transport : String
  pub local_port : ℤ
  pub fallback_addr : String
  pub key : String
  pub aead : String
  pub suspicious_action : String
  pub padding_min : ℤ
  pub padding_max : ℤ
  pub ascii : String
  pub custom_table : String
  pub custom_tables : List String
  pub enable_pure_downlink : Bool
  pub http_mask : HttpMaskConfig

pub data ConfigError : Type 0 where
  recover_key missing_key finalize_failed : ConfigError

pub data Built : Type 0 where
  built : SudokuConfig → Built
  bad : ConfigError → Built

abbrev pub or_else : Bool → Option Bool → Bool
or_else d none = d
or_else d (some b) = b

abbrev pub suspicious_action_of : SudokuSettings → String → String
suspicious_action_of settings fallback =
    if is_empty fallback
    then "silent"
    else first_nonempty (settings.suspicious_action ∷ "fallback" ∷ [])

abbrev pub http_mask_of : SudokuSettings → HttpMaskConfig
http_mask_of settings = record {
  disable = or_else false settings.http_mask.disable;
  mode = first_nonempty (settings.http_mask.mode ∷ "legacy" ∷ []);
  tls = or_else false settings.http_mask.tls;
  host = first_nonempty (settings.http_mask.mask_host ∷ settings.http_mask.host ∷ []);
  path_root = settings.http_mask.path_root;
  multiplex = first_nonempty (settings.http_mask.multiplex ∷ settings.multiplex ∷ []);
}

-- What `Finalize` is given.
unfoldable pub draft : NodeInfo → RuntimeConfig → String → SudokuConfig
draft node cfg key =
    let settings = node.encryption_settings in
    let fallback = first_nonempty (settings.fallback_address ∷ cfg.fallback_address ∷ []) in
    record {
      mode = "server";
      transport = "tcp";
      local_port = node.server_port;
      fallback_addr = fallback;
      key = key;
      aead = first_nonempty (settings.aead_method ∷ settings.aead ∷ "chacha20-poly1305" ∷ []);
      suspicious_action = suspicious_action_of settings fallback;
      padding_min = first_nonzero (settings.padding_min ∷ pos 5 ∷ []);
      padding_max = first_nonzero (settings.padding_max ∷ pos 15 ∷ []);
      ascii = first_nonempty (settings.table_type ∷ settings.ascii ∷ "prefer_entropy" ∷ []);
      custom_table = settings.custom_table;
      custom_tables = settings.custom_tables;
      enable_pure_downlink = or_else true settings.enable_pure_downlink;
      http_mask = http_mask_of settings;
    }

-- What a configuration has before it is finalized: a key, a cipher, a table, padding bounds that
-- are not 0, and no action that needs a fallback where there is none.
pub record IsComplete (sc : SudokuConfig) : Type 0 where
  pub key : is_empty sc.key ≡ false
  pub aead : is_empty sc.aead ≡ false
  pub ascii : is_empty sc.ascii ≡ false
  pub http_mode : is_empty sc.http_mask.mode ≡ false
  pub padding_min : sc.padding_min ≢ pos 0
  pub padding_max : sc.padding_max ≢ pos 0
  pub silent :
      (if is_empty sc.fallback_addr then "silent" else sc.suspicious_action) ≡ sc.suspicious_action
  pub action : is_empty sc.suspicious_action ≡ false

one_or :
    (a d : String)
    → is_empty (trim_space d) ≡ false
    → is_empty (first_nonempty (a ∷ d ∷ [])) ≡ false
unfolding first_nonempty
one_or a d h = ground (arith, h)

two_or :
    (a b d : String)
    → is_empty (trim_space d) ≡ false
    → is_empty (first_nonempty (a ∷ b ∷ d ∷ [])) ≡ false
unfolding first_nonempty
two_or a b d h = ground (arith, h)

nonzero_or : (a d : ℤ) → d ≢ pos 0 → first_nonzero (a ∷ d ∷ []) ≢ pos 0
unfolding first_nonzero
nonzero_or a d h e = elim (Bool-cases (a == pos 0)) [
  | inl zero ↦ absurd (h (ground (arith, zero, e, int_beq_iff d (pos 0))))
  | inr other ↦ absurd (ground (arith, other, e, int_beq_iff a (pos 0)))
]

silent_action :
    (settings : SudokuSettings) (fallback : String)
    → (if is_empty fallback then "silent" else suspicious_action_of settings fallback)
      ≡ suspicious_action_of settings fallback
silent_action settings String.[] = refl
silent_action settings (String.◌∷◌ c s) = refl

filled_action :
    (settings : SudokuSettings) (fallback : String)
    → is_empty (suspicious_action_of settings fallback) ≡ false
unfolding trim_space
filled_action settings String.[] = refl
filled_action settings (String.◌∷◌ c s) = one_or settings.suspicious_action "fallback" refl

draft-IsComplete :
    (node : NodeInfo) (cfg : RuntimeConfig) (key : String)
    → is_empty key ≡ false
    → IsComplete (draft node cfg key)
unfolding draft trim_space
draft-IsComplete node cfg key h = record {
  key = h;
  aead = two_or _ _ _ refl;
  ascii = two_or _ _ _ refl;
  http_mode = one_or _ _ refl;
  padding_min = nonzero_or _ _ (λ e. absurd (cc));
  padding_max = nonzero_or _ _ (λ e. absurd (cc));
  silent = silent_action node.encryption_settings _;
  action = filled_action node.encryption_settings _;
}

-- `recover` is `RecoverPublicKey` with `EncodePoint` behind it; `finalize` returns what `Finalize`
-- makes of the configuration, `none` for an error.
module _ (recover : String → Option String) (finalize : SudokuConfig → Option SudokuConfig) where
  -- The key that the panel sent, or the one that its private key stands for: `none` is an error.
  key_of : SudokuSettings → Option String
  key_of settings =
      let key = trim_space settings.master_public_key in
      if is_empty key && not (is_empty (trim_space settings.master_private_key))
      then recover settings.master_private_key
      else some key

  finalized : Option SudokuConfig → Built
  finalized none = bad ConfigError.finalize_failed
  finalized (some sc) = built sc

  with_key : NodeInfo → RuntimeConfig → Option String → Built
  unfolding finalized
  with_key node cfg none = bad ConfigError.recover_key
  with_key node cfg (some key) =
      if is_empty key
      then bad ConfigError.missing_key
      else finalized (finalize (draft node cfg key))

  unfoldable pub build_sudoku_config : NodeInfo → RuntimeConfig → Built
  unfolding key_of with_key
  build_sudoku_config node cfg = with_key node cfg (key_of node.encryption_settings)

  finalized-built :
      (o : Option SudokuConfig) (sc : SudokuConfig) → finalized o ≡ built sc → o ≡ some sc
  unfolding finalized
  finalized-built none sc e = absurd (cc)
  finalized-built (some x) sc e = cc

  with_key-built :
      (node : NodeInfo) (cfg : RuntimeConfig) (key : String) (sc : SudokuConfig)
      → with_key node cfg (some key) ≡ built sc
      → (k : String) × IsComplete (draft node cfg k) × (finalize (draft node cfg k) ≡ some sc)
  unfolding with_key
  with_key-built node cfg key sc e = elim (Bool-cases (is_empty key)) [
    | inl blank ↦ absurd (ground (arith, blank, e))
    | inr filled ↦ (
      key,
      draft-IsComplete node cfg key filled,
      finalized-built (finalize (draft node cfg key)) sc (rw filled at e),
    )
  ]

  -- A configuration that is built is what `Finalize` made of a complete one.
  pub build_sudoku_config-IsComplete :
      (node : NodeInfo) (cfg : RuntimeConfig) (sc : SudokuConfig)
      → build_sudoku_config node cfg ≡ built sc
      → (key : String) × IsComplete (draft node cfg key) × (finalize (draft node cfg key) ≡ some sc)
  unfolding build_sudoku_config
  build_sudoku_config-IsComplete node cfg sc e =
      elim (Option-cases (key_of node.encryption_settings)) [
        | inl none_found ↦ absurd (cc (rw none_found at e))
        | inr (key, found) ↦ with_key-built node cfg key sc (ap (with_key node cfg) (sym found) ∙ e)
      ]
