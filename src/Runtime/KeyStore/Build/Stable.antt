-- ===== src/Runtime/KeyStore/Build/Stable.antt =====
-- `BuildMappings` of internal/runtime/key_store.go in the mode "auto": what a loop leaves for a second
-- one to find.
use v2sudoku.Prelude.{
  ℕ, ◌≡◌, refl, sym, ◌∙◌, ap, subst, inl, inr, String, List, [], ◌∷◌, true, false, ◌==◌, string_eq,
  str_eq_iff, some, arith, Option-cases, Bool-cases, if◌then◌else◌,
}
use v2sudoku.Dict.{insert}
use v2sudoku.Dict.Laws.{lookup-insert, eq_self}
use v2sudoku.Text.{is_empty}
use v2sudoku.Text.Trim.{trim_space, trim_space-is_empty}
use v2sudoku.Text.Decimal.{itoa}
use v2sudoku.Panel.{NodeInfo, UserInfo}
use v2sudoku.Runtime.KeyStore.Derive.{Crypto, Result, ok, err, user_hash_hex}
use v2sudoku.Runtime.KeyStore.State.{ClientKeyStore, Users, users_of, users_in, after}
use v2sudoku.Runtime.KeyStore.Build.{
  UserKey, Round, text_at, resolve_key_locked, build_round, build_loop, remember_key, generate_key,
  split_drawn, file_key, use_key,
}
use v2sudoku.Runtime.KeyStore.Build.Rounds.{
  resolve-frame, build_round_cases, generate_key-frame, build_round_cases,
}

abbrev pub text_of : String → ClientKeyStore → String
text_of k s = text_at k (users_of s)

-- No text in the file is blank but for the empty one.
abbrev pub IsClean : ClientKeyStore → Type 0
IsClean s =
    (k : String) → is_empty (trim_space (text_of k s)) ≡ true → is_empty (text_of k s) ≡ true

-- What the program relies on in `SplitPrivateKey`: a key is not blank, and no spaces surround it.
abbrev pub DrawsKeys : Crypto → Type 0
DrawsKeys c =
    (m : c.Scalar) (draw : ℕ) (key : String)
    → c.split_private_key m draw ≡ some key
    → (is_empty key ≡ false) × (trim_space key ≡ key)

-- The texts of the file that are not empty stay.
abbrev pub Keeps : ClientKeyStore → ClientKeyStore → Type 0
Keeps s s' = (k : String) → is_empty (text_of k s) ≡ false → text_of k s' ≡ text_of k s

pub Keeps-trans : (s t u : ClientKeyStore) → Keeps s t → Keeps t u → Keeps s u
Keeps-trans s t u p q k h = let e = p k h in q k (subst (λ x. is_empty x ≡ false) (sym e) h) ∙ e

text_at-insert :
    (k j v : String) (m : Users) → text_at j (insert k v m) ≡ (if k == j then v else text_at j m)
text_at-insert k j v m = ground (arith, lookup-insert k j v m)

module _ (c : Crypto) (node : NodeInfo) where
  use_key-Keeps :
      (user : UserInfo) (source key : String) (s : ClientKeyStore)
      → Keeps s (use_key c user source key s).1
  unfolding use_key remember_key
  use_key-Keeps user source key s k h =
      ground (arith, text_at-insert (itoa user.id) k key (users_of s), str_eq_iff (itoa user.id) k)

  build_round-Keeps :
      (source : String) (user : UserInfo) (s : ClientKeyStore)
      → Keeps s (build_round c node source user s).1
  build_round-Keeps source user s =
      let (_, users) = resolve-frame c node user source s in
      let s1 = (resolve_key_locked c node user source s).1 in
      build_round_cases c node (Keeps s) source user s
        (λ k h. ap (λ u. text_at k (users_in u)) users)
        (λ key _ k h.
          let e = ap (λ u. text_at k (users_in u)) users in
          use_key-Keeps user source key s1 k (rw e h) ∙ e)

  -- No call of the loop, whatever its result, changes or drops a key of the file.
  pub build_loop-Keeps :
      (source : String) (users : List UserInfo) (s : ClientKeyStore)
      → Keeps s (build_loop c node source users s).1
  unfolding build_loop
  build_loop-Keeps source [] s k h = refl
  build_loop-Keeps source (u ∷ us) s k h =
      let s1 = (build_round c node source u s).1 in
      let first = build_round-Keeps source u s in
      let both =
        Keeps-trans s s1 (build_loop c node source us s1).1 first (build_loop-Keeps source us s1) in
      ground (arith, first k h, both k h)

  -- The user's key is in the file, and the round returned it.
  pub record Served (user : UserInfo) (s : ClientKeyStore) (keys : List UserKey) : Type 0 where
    pub stored : is_empty (trim_space (text_of (itoa user.id) s)) ≡ false
    pub returned :
        keys
        ≡ (record {
          uid = user.id;
          uuid = user.uuid;
          key = trim_space (text_of (itoa user.id) s);
          user_hash = user_hash_hex c (trim_space (text_of (itoa user.id) s));
        })
          ∷ []

  -- A user whose key is in the file gets it, and nothing changes.
  pub build_round-Served :
      (user : UserInfo) (s : ClientKeyStore) (keys : List UserKey)
      → Served user s keys
      → build_round c node "auto" user s ≡ (ok (record { keys = keys; changed = false }), s)
  unfolding build_round use_key remember_key resolve_key_locked file_key
  build_round-Served user s keys v =
      let filled : is_empty (text_of (itoa user.id) s) ≡ false =
        ground (arith, trim_space-is_empty (text_of (itoa user.id) s), v.stored) in
      rw (v.stored, v.stored, filled, v.returned)

  generate_key-key :
      DrawsKeys c
      → (s s1 : ClientKeyStore) (key : String) → generate_key c node s ≡ (ok key, s1)
      → (is_empty key ≡ false) × (trim_space key ≡ key)
  unfolding generate_key split_drawn
  generate_key-key law s s1 key e =
      elim (Option-cases (c.parse_private_scalar node.encryption_settings.master_private_key)) [
        | inl bad ↦ absurd (ground arith)
        | inr (m, good) ↦ elim (Option-cases (c.split_private_key m s.draws)) [
          | inl none_drawn ↦ absurd (ground arith)
          | inr (k, drawn) ↦
              let same : k ≡ key = ground arith in
              subst (λ x. (is_empty x ≡ false) × (trim_space x ≡ x)) same (law m s.draws k drawn)
        ]
      ]

  entry : UserInfo → String → UserKey
  entry user key = record {
    uid = user.id;
    uuid = user.uuid;
    key = key;
    user_hash = user_hash_hex c key;
  }

  stored : UserInfo → String → ClientKeyStore → ClientKeyStore
  stored user key s = record s { users = some (insert (itoa user.id) key (users_of s)) }

  -- A fresh key for a user without one is written to the users of the file.
  use_key_fresh :
      (user : UserInfo) (s : ClientKeyStore) (key : String)
      → is_empty key ≡ false
      → is_empty (text_of (itoa user.id) s) ≡ true
      → use_key c user "auto" key s
        ≡ (ok (record { keys = entry user key ∷ []; changed = true }), stored user key s)
  unfolding use_key remember_key entry stored
  use_key_fresh user s key filled blank = rw (filled, blank)

  text_of-stored :
      (user : UserInfo) (key : String) (s : ClientKeyStore) (k : String)
      → text_of k (stored user key s) ≡ (if itoa user.id == k then key else text_of k s)
  unfolding stored
  text_of-stored user key s k = text_at-insert (itoa user.id) k key (users_of s)

  stored-Served :
      (user : UserInfo) (key : String) (s : ClientKeyStore)
      → is_empty key ≡ false
      → trim_space key ≡ key
      → Served user (stored user key s) (entry user key ∷ [])
  unfolding entry
  stored-Served user key s filled trimmed =
      let e : text_of (itoa user.id) (stored user key s) ≡ key =
        text_of-stored user key s (itoa user.id) ∙ rw (eq_self (itoa user.id)) in
      record { stored = rw (e, trimmed) filled; returned = rw (e, trimmed) }

  stored-IsClean :
      (user : UserInfo) (key : String) (s : ClientKeyStore)
      → is_empty key ≡ false
      → trim_space key ≡ key
      → IsClean s
      → IsClean (stored user key s)
  stored-IsClean user key s filled trimmed clean k blank = elim (Bool-cases (itoa user.id == k)) [
    | inl here ↦
        let e : text_of k (stored user key s) ≡ key = text_of-stored user key s k ∙ rw here in
        absurd (ground (arith, e, trimmed, filled, blank))
    | inr there ↦
        let e : text_of k (stored user key s) ≡ text_of k s =
          text_of-stored user key s k ∙ rw there in
        rw e (clean k (rw e at blank))
  ]

  -- How a round of the mode "auto" ends, if it does not fail.
  abbrev pub Ends : UserInfo → Result Round × ClientKeyStore → Type 0
  Ends user (ok r, s') = Served user s' r.keys × IsClean s'
  Ends user (err x, s') = Unit

  build_round_blank :
      (user : UserInfo) (s : ClientKeyStore)
      → is_empty (trim_space (text_of (itoa user.id) s)) ≡ true
      → build_round c node "auto" user s
        ≡ after (generate_key c node s).0 (generate_key c node s).1 (use_key c user "auto")
  unfolding build_round resolve_key_locked file_key
  build_round_blank user s blank = rw blank

  pub build_round-Ends :
      DrawsKeys c
      → (user : UserInfo) (s : ClientKeyStore) → IsClean s
      → Ends user (build_round c node "auto" user s)
  build_round-Ends law user s clean =
      elim (Bool-cases (is_empty (trim_space (text_of (itoa user.id) s)))) [
        | inr filled ↦
            let v : Served user s _ = record { stored = filled; returned = refl } in
            rw (build_round-Served user s _ v) (v, clean)
        | inl blank ↦ rw (build_round_blank user s blank) (go blank (generate_key c node s).0 refl)
      ]
    where
      go :
          is_empty (trim_space (text_of (itoa user.id) s)) ≡ true
          → (r : Result String) → (generate_key c node s).0 ≡ r
          → Ends user (after r (generate_key c node s).1 (use_key c user "auto"))
      go blank (err x) e = tt
      go blank (ok key) e =
          let s1 = (generate_key c node s).1 in
          let (filled, trimmed) = generate_key-key law s s1 key (λ i. (e i, s1)) in
          let same = ap users_in (generate_key-frame c node s).1 in
          let clean1 : IsClean s1 = rw same clean in
          rw (use_key_fresh user s1 key filled (rw same (clean _ blank))) (
            stored-Served user key s1 filled trimmed,
            stored-IsClean user key s1 filled trimmed clean1,
          )
