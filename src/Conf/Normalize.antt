-- ===== src/Conf/Normalize.antt =====
-- internal/conf/conf.go: the values that a normal configuration has.
use v2sudoku.Prelude.{
  pos, String, List, [], ◌∷◌, none, some, false, ◌≡◌, ◌≢◌, refl, arith, All, Option-cases, inl, inr,
  subst, ◌≤ℤ◌,
}
use v2sudoku.Text.{is_empty}
use v2sudoku.Conf.{
  or_default, Conf, RuntimeConfig, NodeConfig, normalize, fill_retry_counts, ConfigFile, decodes,
  load_from_path, Loaded, loaded, failed, completed,
}

or_default-nonempty : (v d : String) → is_empty d ≡ false → is_empty (or_default v d) ≡ false
or_default-nonempty String.[] d h = h
or_default-nonempty (String.◌∷◌ c s) d h = refl

-- No text that the program relies on is empty, and the limit of the key file is positive.
pub record IsNormal (c : RuntimeConfig) : Type 0 where
  pub engine : is_empty c.engine ≡ false
  pub working_dir : is_empty c.working_dir ≡ false
  pub sudoku_path : is_empty c.sudoku_path ≡ false
  pub fallback_address : is_empty c.fallback_address ≡ false
  pub client_key_source : is_empty c.client_key_source ≡ false
  pub client_key_file : is_empty c.client_key_file ≡ false
  pub limit : pos 1 ≤ℤ c.max_client_key_file_users

pub normalize-IsNormal : (c : RuntimeConfig) → IsNormal (normalize c)
unfolding normalize
normalize-IsNormal c = record {
  engine = or_default-nonempty c.engine _ refl;
  working_dir = or_default-nonempty c.working_dir _ refl;
  sudoku_path = or_default-nonempty c.sudoku_path _ refl;
  fallback_address = or_default-nonempty c.fallback_address _ refl;
  client_key_source = or_default-nonempty c.client_key_source _ refl;
  client_key_file = or_default-nonempty c.client_key_file _ refl;
  limit = ground arith;
}

-- Normalising a normal configuration changes nothing.
pub normalize_of_IsNormal : (c : RuntimeConfig) → IsNormal c → normalize c ≡ c
unfolding normalize
normalize_of_IsNormal c n = ground arith

abbrev pub HasRetryCount : NodeConfig → Type 0
HasRetryCount n = n.retry_count ≢ none

pub fill_retry_counts-All : (ns : List NodeConfig) → All HasRetryCount (fill_retry_counts ns)
unfolding fill_retry_counts
fill_retry_counts-All [] = tt
fill_retry_counts-All (n ∷ ns) = (ground arith, fill_retry_counts-All ns)

abbrev IsLoaded : Loaded → Type 0
IsLoaded (loaded c) = IsNormal c.runtime_config × All HasRetryCount c.node_configs
IsLoaded (failed _) = Unit

-- A configuration that loads is normal and gives every node a retry count, whatever the file says.
pub load_from_path-IsNormal :
    (base c : Conf) (file : ConfigFile)
    → load_from_path base file ≡ loaded c
    → IsNormal c.runtime_config × All HasRetryCount c.node_configs
unfolding load_from_path
load_from_path-IsNormal base c (decodes unmarshal) h = elim (Option-cases (unmarshal base)) [
  | inl bad ↦ absurd (ground arith)
  | inr (read, good) ↦
      let e : completed (some read) ≡ loaded c = rw good at h in
      subst (λ x. IsLoaded x) e
        (normalize-IsNormal read.runtime_config, fill_retry_counts-All read.node_configs)
]
load_from_path-IsNormal base c _ h = absurd (ground arith)
