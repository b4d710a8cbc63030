-- ===== src/Runtime/KeyStore/Build/Again.antt =====
-- internal/runtime/key_store.go: a second call of `BuildMappings`, after a call that succeeded and after
-- one that could not save.
use v2sudoku.Prelude.{
  ◌≡◌, refl, sym, ◌∙◌, ap, subst, String, List, [], ◌∷◌, ◌++◌, true, false, ◌||◌, string_eq, arith,
  sort_by,
}
use v2sudoku.Text.{is_empty}
use v2sudoku.Text.Trim.{trim_space-is_empty}
use v2sudoku.Text.Decimal.{itoa}
use v2sudoku.Panel.{NodeInfo, UserInfo}
use v2sudoku.Runtime.KeyStore.Derive.{Crypto, KeyError, Result, ok, err}
use v2sudoku.Runtime.KeyStore.State.{
  Json, ClientKeyStore, users_in, Disk, ◌>>=◌, >>=-ok, save_file_locked,
}
use v2sudoku.Runtime.KeyStore.Build.{
  UserKey, Round, text_at, normalized_client_key_source, build_round, build_loop, build_mappings,
  finish,
}
use v2sudoku.Runtime.KeyStore.File.{save_file_locked-atomic}
use v2sudoku.Runtime.KeyStore.Build.Rounds.{SameFrame, build_loop-frame}
use v2sudoku.Runtime.KeyStore.Build.Mappings.{
  IsLoaded, build_loop-IsLoaded, build_mappings_loaded, finish-frame, finish-ok,
}
use v2sudoku.Runtime.KeyStore.Build.Stable.{
  text_of, IsClean, DrawsKeys, Keeps, Keeps-trans, Served, Ends, build_round-Served,
  build_round-Ends, build_loop-Keeps,
}

module _ (c : Crypto) (node : NodeInfo) where
  Served-Keeps :
      (user : UserInfo) (s t : ClientKeyStore) (keys : List UserKey)
      → Keeps s t
      → Served c node user s keys
      → Served c node user t keys
  Served-Keeps user s t keys keeps v =
      let filled : is_empty (text_of (itoa user.id) s) ≡ false =
        ground (arith, trim_space-is_empty (text_of (itoa user.id) s), v.stored) in
      let e = keeps (itoa user.id) filled in
      record { stored = rw e v.stored; returned = rw e v.returned }

  -- The loop ended well, and would give the same keys, with no change, on every store that keeps
  -- the keys of the file.
  abbrev pub Repeats : List UserInfo → Result Round × ClientKeyStore → Type 0
  Repeats users (ok r, s') =
      IsClean s'
      × ((t : ClientKeyStore)
          → Keeps s' t
          → build_loop c node "auto" users t ≡ (ok (record { keys = r.keys; changed = false }), t))
  Repeats users (err x, s') = Unit

  -- The result of the loop, from those of its first round and of the rest.
  joined : Round → Result Round × ClientKeyStore → Result Round × ClientKeyStore
  joined first (ok rest, s) =
      (ok (record { keys = first.keys ++ rest.keys; changed = first.changed || rest.changed }), s)
  joined first (err x, s) = (err x, s)

  build_loop-cons :
      (source : String) (u : UserInfo) (us : List UserInfo) (s s1 : ClientKeyStore) (first : Round)
      → build_round c node source u s ≡ (ok first, s1)
      → build_loop c node source (u ∷ us) s ≡ joined first (build_loop c node source us s1)
  unfolding build_loop joined
  build_loop-cons source u us s s1 first e = rw e (ground arith)

  joined-Repeats :
      (u : UserInfo) (us : List UserInfo) (s1 : ClientKeyStore) (first : Round)
      → Served c node u s1 first.keys
      → (x : Result Round × ClientKeyStore) → Keeps s1 x.1
      → Repeats us x
      → Repeats (u ∷ us) (joined first x)
  unfolding joined
  joined-Repeats u us s1 first served (err x, s') keeps rep = tt
  joined-Repeats u us s1 first served (ok rest, s') keeps rep = (
    rep.0,
    λ t later.
        let here = Served-Keeps u s1 t first.keys (Keeps-trans s1 s' t keeps later) served in
        build_loop-cons "auto" u us t t _ (build_round-Served c node u t first.keys here)
        ∙ rw (rep.1 t later),
  )

  build_loop-err :
      (source : String) (u : UserInfo) (us : List UserInfo) (s : ClientKeyStore) (x : KeyError)
      → (build_round c node source u s).0 ≡ err x
      → (build_loop c node source (u ∷ us) s).0 ≡ err x
  unfolding build_loop
  build_loop-err source u us s x e = rw e

  build_loop-Repeats :
      DrawsKeys c
      → (users : List UserInfo) (s : ClientKeyStore) → IsClean s
      → Repeats users (build_loop c node "auto" users s)
  build_loop-Repeats law [] s clean = unfold build_loop in (clean, λ t later. refl)
  build_loop-Repeats law (u ∷ us) s clean =
      step (λ s1 clean1. build_loop-Repeats law us s1 clean1) (build_round c node "auto" u s).0 refl
    where
      step :
          ((s1 : ClientKeyStore) → IsClean s1 → Repeats us (build_loop c node "auto" us s1))
          → (r : Result Round) → (build_round c node "auto" u s).0 ≡ r
          → Repeats (u ∷ us) (build_loop c node "auto" (u ∷ us) s)
      step rest (err x) e =
          subst (λ r. Repeats (u ∷ us) (r, (build_loop c node "auto" (u ∷ us) s).1))
            (sym (build_loop-err "auto" u us s x e)) tt
      step rest (ok first) e =
          let s1 = (build_round c node "auto" u s).1 in
          let ran : build_round c node "auto" u s ≡ (ok first, s1) = λ i. (e i, s1) in
          let ends = subst (Ends c node u) ran (build_round-Ends c node law u s clean) in
          rw (build_loop-cons "auto" u us s s1 first ran) (
            joined-Repeats u us s1 first ends.0 (build_loop c node "auto" us s1)
              (build_loop-Keeps c node "auto" us s1) (rest s1 ends.1))

-- A loop that repeats makes a call that repeats.
run_again :
    (c : Crypto) (json : Json) (node : NodeInfo) (users : List UserInfo) (s : ClientKeyStore)
    (r : Round) (keys : List UserKey)
    → IsLoaded s
    → normalized_client_key_source s.cfg.client_key_source ≡ "auto"
    → keys ≡ sort_by (λ k. k.uid) r.keys
    → build_loop c node "auto" users s ≡ (ok (record { keys = r.keys; changed = false }), s)
    → build_mappings c json node users s ≡ (ok keys, s)
unfolding finish
run_again c json node users s r keys loaded auto sorted repeats =
    build_mappings_loaded c json node users s loaded.1 ∙ rw (auto, repeats, sorted)

-- In the mode "auto", where drawn keys are not empty and have no spaces round them, on a store that
-- has read its file and none of whose texts is blank without being empty: if a call succeeds, a
-- second one returns the same keys and changes nothing, neither the store nor the disk.
pub build_mappings_again :
    (c : Crypto) (json : Json) (node : NodeInfo) (users : List UserInfo) (s s' : ClientKeyStore)
    (keys : List UserKey)
    → DrawsKeys c
    → IsLoaded s
    → IsClean s
    → normalized_client_key_source s.cfg.client_key_source ≡ "auto"
    → build_mappings c json node users s ≡ (ok keys, s')
    → build_mappings c json node users s' ≡ (ok keys, s')
build_mappings_again c json node users s s' keys law loaded clean auto e =
    let loop = build_loop c node "auto" users in
    let run : (loop >>= finish c json) s ≡ (ok keys, s') =
      subst (λ x. (build_loop c node x users >>= finish c json) s ≡ (ok keys, s')) auto
        (sym (build_mappings_loaded c json node users s loaded.1) ∙ e) in
    let (r, ran, fin) = >>=-ok loop (finish c json) s run in
    let s1 = (loop s).1 in
    let rep = subst (Repeats c node users) ran (build_loop-Repeats c node law users s clean) in
    let ends : (finish c json r s1).1 ≡ s' = ap (λ x. x.1) fin in
    let (same, cfg, _) = finish-frame c json r s1 in
    let same' : s'.users ≡ s1.users = subst (λ x. x.users ≡ s1.users) ends same in
    let loaded1 = build_loop-IsLoaded c node "auto" users s loaded in
    let same_cfg : s'.cfg ≡ s.cfg =
      subst (λ x. x.cfg ≡ s1.cfg) ends cfg ∙ (build_loop-frame c node "auto" users s).cfg in
    let auto' : normalized_client_key_source s'.cfg.client_key_source ≡ "auto" = rw same_cfg auto in
    let sorted = finish-ok c json r s1 s' keys fin in
    run_again c json node users s' r keys (loaded1.0, same' ∙ loaded1.1) auto' sorted
      (rep.1 s' (λ k h. ap (λ u. text_at k (users_in u)) same'))

loaded-run :
    (c : Crypto) (json : Json) (node : NodeInfo) (users : List UserInfo) (s s1 : ClientKeyStore)
    (r : Round)
    → IsLoaded s
    → normalized_client_key_source s.cfg.client_key_source ≡ "auto"
    → build_loop c node "auto" users s ≡ (ok r, s1)
    → build_mappings c json node users s ≡ finish c json r s1
loaded-run c json node users s s1 r loaded auto ran =
    build_mappings_loaded c json node users s loaded.1 ∙ rw (auto, ran)

-- In the mode "auto", where drawn keys are not empty and have no spaces round them, on a store that has read
-- its file and none of whose texts is blank without being empty: if the loop changed the users of the
-- file and saving them then fails, with whatever error, the call fails with that error; and a next call
-- for the same users, on whatever disk, succeeds with the keys of the loop, but does not save them
-- again: it leaves that disk as it is.
pub build_mappings_after_failed_save :
    (c : Crypto) (json : Json) (node : NodeInfo) (users : List UserInfo) (s s1 s2 : ClientKeyStore)
    (r : Round) (x : KeyError)
    → DrawsKeys c
    → IsLoaded s
    → IsClean s
    → normalized_client_key_source s.cfg.client_key_source ≡ "auto"
    → build_loop c node "auto" users s ≡ (ok r, s1)
    → r.changed ≡ true
    → save_file_locked json s1 ≡ (err x, s2)
    → (build_mappings c json node users s ≡ (err x, s2))
      × ((later : Disk)
          → build_mappings c json node users (record s2 { disk = later })
            ≡ (ok (sort_by (λ k. k.uid) r.keys), record s2 { disk = later }))
unfolding finish
build_mappings_after_failed_save c json node users s s1 s2 r x law loaded clean auto ran changed
      broken =
    let frame = subst (λ o. SameFrame s o.1) ran (build_loop-frame c node "auto" users s) in
    let (m, read) =
      subst (λ o. IsLoaded o.1) ran (build_loop-IsLoaded c node "auto" users s loaded) in
    let rep = subst (Repeats c node users) ran (build_loop-Repeats c node law users s clean) in
    let (_, saved_users, saved_cfg, _) = save_file_locked-atomic json s1 in
    let same_users : s2.users ≡ s1.users = subst (λ o. o.1.users ≡ s1.users) broken saved_users in
    let same_cfg : s2.cfg ≡ s.cfg = subst (λ o. o.1.cfg ≡ s1.cfg) broken saved_cfg ∙ frame.cfg in
    (
      loaded-run c json node users s s1 r loaded auto ran ∙ rw (changed, broken),
      λ later.
          run_again c json node users (record s2 { disk = later }) r _ (m, same_users ∙ read)
            (rw same_cfg auto) refl
            (rep.1 (record s2 { disk = later })
              (λ k h. ap (λ u. text_at k (users_in u)) same_users)),
    )
