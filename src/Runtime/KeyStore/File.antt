-- ===== src/Runtime/KeyStore/File.antt =====
-- The key file of internal/runtime/key_store.go: what a save leaves on the disk, also when it fails,
-- and what a later load makes of it.
use v2sudoku.Prelude.{
  ◌≡◌, refl, ap, subst, ◌⊎◌, inl, inr, String, true, false, none, some, arith, Option-cases,
  Bool-cases, [], string_eq,
}
use v2sudoku.Dict.{lookup}
use v2sudoku.Text.{◌+s+◌, is_empty}
use v2sudoku.Text.Trim.{trim_space}
use v2sudoku.Conf.{RuntimeConfig}
use v2sudoku.Runtime.KeyStore.Derive.{KeyError, ok, err}
use v2sudoku.Runtime.KeyStore.State.{
  Users, Json, FileState, Disk, ClientKeyStore, users_of, new_client_key_store, load_file_locked,
  save_file_locked,
}

-- How a save ends: the key file holds the encoded users, or it is what it was.
pub record Saved (json : Json) (before after : ClientKeyStore) : Type 0 where
  pub body : String
  pub encoded : json.marshal_indent (users_of before) ≡ some body
  pub key_file : after.disk.key_file ≡ FileState.holds (body +s+ "\n")

-- A save succeeds with the whole new text in the key file, or fails and leaves the key file as it
-- was. The store itself is unchanged either way.
pub save_file_locked-atomic :
    (json : Json) (s : ClientKeyStore)
    → (let (r, s') = save_file_locked json s in
        (((r ≡ ok tt) × Saved json s s')
          ⊎ ((e : KeyError) × (r ≡ err e) × (s'.disk.key_file ≡ s.disk.key_file)))
        × (s'.users ≡ s.users)
        × (s'.cfg ≡ s.cfg)
        × (s'.draws ≡ s.draws))
unfolding save_file_locked
save_file_locked-atomic json s = elim (Bool-cases s.disk.mkdir_succeeds) [
  | inr no_dir ↦ rw no_dir (inr (KeyError.make_directory, refl, refl), refl, refl, refl)
  | inl dir ↦ elim (Option-cases (json.marshal_indent (users_of s))) [
    | inl bad ↦ rw (dir, bad) (inr (KeyError.marshal_file, refl, refl), refl, refl, refl)
    | inr (body, good) ↦ elim (Bool-cases s.disk.write_succeeds) [
      | inr torn ↦ rw (dir, good, torn) (inr (KeyError.write_file, refl, refl), refl, refl, refl)
      | inl written ↦ elim (Bool-cases s.disk.rename_succeeds) [
        | inr kept ↦
            rw (dir, good, written, kept) (inr (KeyError.rename_file, refl, refl), refl, refl, refl)
        | inl renamed ↦
            rw (dir, good, written, renamed)
              (
                inl (refl, record { body = body; encoded = good; key_file = refl }),
                refl,
                refl,
                refl,
              )
      ]
    ]
  ]
]

-- What the program relies on in `encoding/json`: an encoded map is not blank, and with a newline
-- behind it decodes to a map with the same entries.
abbrev pub RoundTrips : Json → Type 0
RoundTrips json =
    (m : Users) (body : String)
    → json.marshal_indent m ≡ some body
    → (is_empty (trim_space (body +s+ "\n")) ≡ false)
      × (m' : Users) × (json.unmarshal (body +s+ "\n")
          ≡ record { succeeds = true; users = some m' })
      × ((k : String) → lookup k m' ≡ lookup k m)

Saved-ok :
    (json : Json) (s s' : ClientKeyStore) → save_file_locked json s ≡ (ok tt, s') → Saved json s s'
Saved-ok json s s' e =
    let a = save_file_locked-atomic json s in
    elim a.0 [
      | inl (_, saved) ↦ subst (Saved json s) (ap (λ x. x.1) e) saved
      | inr (x, failed, _) ↦ absurd (ground arith)
    ]

-- If decoding undoes encoding (`RoundTrips`), a new store over the disk that a successful save left
-- loads the same users, and leaves the disk.
pub load-save_file_locked :
    (json : Json) (s s' : ClientKeyStore) (cfg : RuntimeConfig)
    → RoundTrips json
    → save_file_locked json s ≡ (ok tt, s')
    → (t : ClientKeyStore) × (load_file_locked json (new_client_key_store cfg s'.disk) ≡ (ok tt, t))
      × ((k : String) → lookup k (users_of t) ≡ lookup k (users_of s))
      × (t.disk ≡ s'.disk)
unfolding load_file_locked
load-save_file_locked json s s' cfg law e =
    let saved = Saved-ok json s s' e in
    let (filled, m, decodes, same) = law (users_of s) saved.body saved.encoded in
    (
      record { cfg = cfg; users = some m; disk = s'.disk; draws = 0 },
      rw (saved.key_file, filled, decodes),
      same,
      refl,
    )

-- A store that has read nothing meets a key file that cannot be read: the load fails, and after it
-- the store takes the file for empty: a next load succeeds, with no users, whatever the disk holds
-- by then.
pub load_file_locked_after_failure :
    (json : Json) (s : ClientKeyStore) (later : Disk)
    → s.users ≡ none
    → s.disk.key_file ≡ FileState.unreadable
    → (let (r, s') = load_file_locked json s in
        (r ≡ err KeyError.read_key_file)
        × (load_file_locked json (record s' { disk = later })
            ≡ (ok tt, record s { users = some []; disk = later })))
unfolding load_file_locked
load_file_locked_after_failure json s later fresh bad = ground arith
