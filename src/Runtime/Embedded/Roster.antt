-- ===== src/Runtime/Embedded/Roster.antt =====
-- internal/runtime/embedded.go: which users the engine has.
use v2sudoku.Prelude.{
  ◌≡◌, ◌∙◌, refl, ap, String, List, [], ◌∷◌, some, string_eq, if◌then◌else◌, arith,
}
use v2sudoku.Dict.{insert}
use v2sudoku.Text.{is_empty}
use v2sudoku.Panel.{UserInfo}
use v2sudoku.Runtime.KeyStore.Derive.{Crypto}
use v2sudoku.Runtime.KeyStore.State.{Json}
use v2sudoku.Runtime.Embedded.{
  Embedded, Engine, put_user, put_users, replaced, replace_users_locked, update_users,
}
use v2sudoku.Runtime.Embedded.Shape.{rebuild-same}
use v2sudoku.Runtime.Embedded.Admission.{drop_strangers-users}

-- The users of a list, by their UUIDs: those without one are left out, and the last one stands.
unfoldable pub by_uuid : List UserInfo → List (String × UserInfo) → List (String × UserInfo)
by_uuid [] m = m
by_uuid (u ∷ us) m = by_uuid us (if is_empty u.uuid then m else insert u.uuid u m)

pub put_users-users :
    (us : List UserInfo) (e : Embedded) → (put_users us e).users ≡ by_uuid us e.users
unfolding put_users put_user by_uuid
put_users-users [] e = refl
put_users-users (u ∷ us) e = put_users-users us (put_user u e) ∙ ap (by_uuid us) (ground arith)

pub replaced-users : (us : List UserInfo) (e : Embedded) → (replaced us e).users ≡ by_uuid us []
unfolding replaced
replaced-users us e =
    drop_strangers-users (put_users us (record e { users = [] })).counters.table
      (put_users us (record e { users = [] }))
    ∙ put_users-users us _

pub update-users :
    (c : Crypto) (json : Json) (added deleted modified list : List UserInfo) (g : Engine)
    → (update_users c json added deleted modified (some list) g).1.embedded.users ≡ by_uuid list []
unfolding update_users replace_users_locked
update-users c json added deleted modified list g =
    (rebuild-same c json (replaced list g.embedded) g.store).0 ∙ replaced-users list g.embedded
