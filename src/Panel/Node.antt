-- ===== src/Panel/Node.antt =====
-- internal/panel/client.go: `NodeInfo.Normalize`, which checks and completes what the panel serves.
use v2sudoku.Prelude.{
  ℤ, pos, ◌≡◌, refl, ap, subst, String, Bool, true, false, ◌&&◌, not, Option, none, some, ◌==◌,
  string_eq, if◌then◌else◌, arith, Bool-cases, inl, inr, leb_ℤ, mul64, ◌≤ℤ◌, str_eq_iff,
}
use v2sudoku.Text.{is_empty, ◌+s+◌}
use v2sudoku.Text.Decimal.{itoa}
use v2sudoku.Text.Atoi.{atoi}
use v2sudoku.Panel.{Any, NodeInfo, SudokuSettings}

abbrev second : ℤ
second = pos 1000000000

abbrev minute : ℤ
minute = pos 60000000000

unfoldable pub interval_to_duration : Any → ℤ
interval_to_duration Any.nil = pos 0
interval_to_duration (Any.int v) = mul64 v second
interval_to_duration (Any.int64 v) = mul64 v second
interval_to_duration (Any.float64 v) = mul64 v second
interval_to_duration (Any.str v) = mul64 (atoi v) second
interval_to_duration (Any.signed v) = mul64 v second
interval_to_duration Any.other = pos 0

pub data NormalizeError : Type 0 where
  unsupported_protocol : String → NormalizeError
  server_port_required key_required : NormalizeError

-- The interval before the default: what the panel sent, or what there was.
abbrev pub interval_of : Any → ℤ → ℤ
interval_of Any.nil old = old
interval_of v old = interval_to_duration v

abbrev pub or_minute : ℤ → ℤ
or_minute interval = if leb_ℤ interval (pos 0) then minute else interval

abbrev named : ℤ → String → NodeInfo → NodeInfo
named node_id api_host cfg = record cfg {
  id = node_id;
  tag = "[" +s+ api_host +s+ "]-sudoku:" +s+ itoa node_id;
  listen_ip = if is_empty cfg.listen_ip then "0.0.0.0" else cfg.listen_ip;
}

abbrev timed : NodeInfo → NodeInfo
timed cfg = record cfg {
  push_interval = or_minute (interval_of cfg.base_config.push_interval cfg.push_interval);
  pull_interval = or_minute (interval_of cfg.base_config.pull_interval cfg.pull_interval);
}

abbrev pub has_no_key : SudokuSettings → Bool
has_no_key s = is_empty s.master_public_key && is_empty s.master_private_key

-- `Normalize` changes the object that it is called on, also where it fails: the error, if any, and
-- what it leaves.
unfoldable pub normalize : ℤ → String → NodeInfo → Option NormalizeError × NodeInfo
normalize node_id api_host cfg =
    if not (cfg.protocol == "sudoku")
    then (some (NormalizeError.unsupported_protocol cfg.protocol), cfg)
    else if leb_ℤ cfg.server_port (pos 0)
    then (some NormalizeError.server_port_required, named node_id api_host cfg)
    else if has_no_key cfg.encryption_settings
    then (some NormalizeError.key_required, timed (named node_id api_host cfg))
    else (none, timed (named node_id api_host cfg))

-- What the engines rely on.
pub record IsServable (node_id : ℤ) (cfg : NodeInfo) : Type 0 where
  pub protocol : cfg.protocol ≡ "sudoku"
  pub id : cfg.id ≡ node_id
  pub listen_ip : is_empty cfg.listen_ip ≡ false
  pub server_port : pos 1 ≤ℤ cfg.server_port
  pub push_interval : pos 1 ≤ℤ cfg.push_interval
  pub pull_interval : pos 1 ≤ℤ cfg.pull_interval
  pub key : has_no_key cfg.encryption_settings ≡ false

or_minute-pos : (v : ℤ) → pos 1 ≤ℤ or_minute v
or_minute-pos v = ground arith

filled_ip : (ip : String) → is_empty (if is_empty ip then "0.0.0.0" else ip) ≡ false
filled_ip String.[] = refl
filled_ip (String.◌∷◌ c s) = refl

-- What a call that succeeds has tested.
passed :
    (node_id : ℤ) (api_host : String) (cfg out : NodeInfo)
    → normalize node_id api_host cfg ≡ (none, out)
    → ((cfg.protocol == "sudoku") ≡ true)
      × (leb_ℤ cfg.server_port (pos 0) ≡ false)
      × (has_no_key cfg.encryption_settings ≡ false)
      × (timed (named node_id api_host cfg) ≡ out)
unfolding normalize
passed node_id api_host cfg out e = elim (Bool-cases (cfg.protocol == "sudoku")) [
  | inr other ↦ let r = ap (λ x. x.0) e in absurd (ground (arith, r, other))
  | inl sudoku ↦ elim (Bool-cases (leb_ℤ cfg.server_port (pos 0))) [
    | inl no_port ↦ let r = ap (λ x. x.0) e in absurd (ground (arith, r, sudoku, no_port))
    | inr port ↦ elim (Bool-cases (has_no_key cfg.encryption_settings)) [
      | inl no_key ↦
          let r = rw (sudoku, port, no_key) at (ap (λ x. x.0) e) in absurd (ground (arith, r))
      | inr key ↦
          let r : timed (named node_id api_host cfg) ≡ out =
            rw (sudoku, port, key) at (ap (λ x. x.1) e) in
          (sudoku, port, key, r)
    ]
  ]
]

-- A node that `Normalize` accepts can be served: protocol, ID, address, port and key are there, and
-- both intervals are positive.
pub normalize-IsServable :
    (node_id : ℤ) (api_host : String) (cfg out : NodeInfo)
    → normalize node_id api_host cfg ≡ (none, out)
    → IsServable node_id out
normalize-IsServable node_id api_host cfg out e =
    let (sudoku, port, key, same) = passed node_id api_host cfg out e in
    subst (IsServable node_id) same (record {
      protocol = (str_eq_iff cfg.protocol "sudoku").0 sudoku;
      id = refl;
      listen_ip = filled_ip cfg.listen_ip;
      server_port = ground (arith, port);
      push_interval = or_minute-pos (interval_of cfg.base_config.push_interval cfg.push_interval);
      pull_interval = or_minute-pos (interval_of cfg.base_config.pull_interval cfg.pull_interval);
      key = key;
    })

interval_again :
    (v : Any) (old : ℤ)
    → or_minute (interval_of v (or_minute (interval_of v old))) ≡ or_minute (interval_of v old)
interval_again Any.nil old = ground arith
interval_again (Any.int v) old = refl
interval_again (Any.int64 v) old = refl
interval_again (Any.float64 v) old = refl
interval_again (Any.str v) old = refl
interval_again (Any.signed v) old = refl
interval_again Any.other old = refl

completed_again :
    (node_id : ℤ) (api_host : String) (cfg : NodeInfo)
    → timed (named node_id api_host (timed (named node_id api_host cfg)))
      ≡ timed (named node_id api_host cfg)
completed_again node_id api_host cfg =
    let ip : (if is_empty (named node_id api_host cfg).listen_ip
          then "0.0.0.0"
          else (named node_id api_host cfg).listen_ip)
        ≡ (named node_id api_host cfg).listen_ip =
      rw (filled_ip cfg.listen_ip) in
    rw (
      ip,
      interval_again cfg.base_config.push_interval cfg.push_interval,
      interval_again cfg.base_config.pull_interval cfg.pull_interval,
    )

-- A node that `Normalize` has accepted, it accepts again and leaves as it is: so a cached node may be
-- normalised after it is read.
pub normalize_again :
    (node_id : ℤ) (api_host : String) (cfg out : NodeInfo)
    → normalize node_id api_host cfg ≡ (none, out)
    → normalize node_id api_host out ≡ (none, out)
unfolding normalize
normalize_again node_id api_host cfg out e =
    let (sudoku, port, key, same) = passed node_id api_host cfg out e in
    subst (λ m. normalize node_id api_host m ≡ (none, m)) same
      (rw (sudoku, port, key, completed_again node_id api_host cfg))
