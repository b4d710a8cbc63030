-- ===== src/Panel/Users.antt =====
-- internal/panel/client.go: `GetUserList` and `GetUserAlive`. Sending a request is resty's work, and
-- decoding a body that of msgpack and `encoding/json`: both are parameters.
use Prim.Native.Char.{code}
use v2sudoku.Prelude.{
  ℤ, pos, String, List, [], Bool, true, false, ◌||◌, ◌&&◌, Option, none, some, ◌==◌, int_eq,
  nat_beq, if◌then◌else◌, leb_ℤ,
}
use v2sudoku.Panel.{UserInfo}
use v2sudoku.Panel.Client.{
  PanelError, Reply, failed, ended, no_response, replied, check_response_status,
}

-- `strings.HasPrefix` and `strings.Contains`
unfoldable pub has_prefix : String → String → Bool
has_prefix s String.[] = true
has_prefix String.[] (String.◌∷◌ d p) = false
has_prefix (String.◌∷◌ c s) (String.◌∷◌ d p) =
    let rest = has_prefix s p in nat_beq (code c) (code d) && rest

unfoldable pub contains : String → String → Bool
unfolding has_prefix
contains String.[] p = has_prefix "" p
contains (String.◌∷◌ c s) p = let rest = contains s p in has_prefix (String.◌∷◌ c s) p || rest

-- A body decoded: `none` if that fails, and nil for a list or a map that is missing.
abbrev pub Decoder : Type 0 → Type 0
Decoder A = String → Option (Option A)

-- The result of `GetUserList`: users, nil for a list that has not changed, or an error.
pub data UserResult : Type 0 where
  user_list : List UserInfo → UserResult
  no_users : UserResult
  user_error : PanelError → UserResult

module _ (msgpack json : Decoder (List UserInfo)) where
  decoded_users : Option (Option (List UserInfo)) → String → String → UserResult × String
  decoded_users none etag old = (user_error PanelError.decode_failed, old)
  decoded_users (some none) etag old = (no_users, etag)
  decoded_users (some (some list)) etag old = (user_list list, etag)

  -- `GetUserList`: the response with its `Content-Type`, and the tag that the client keeps. The tag is
  -- kept after the body is decoded.
  unfoldable pub get_user_list : Reply → String → String → UserResult × String
  unfolding decoded_users
  get_user_list failed content_type etag = (user_error PanelError.request_failed, etag)
  get_user_list ended content_type etag = (user_error PanelError.canceled, etag)
  get_user_list no_response content_type etag = (user_error PanelError.nil_response, etag)
  get_user_list (replied r) content_type etag =
      if r.status == pos 304 then (no_users, etag) else elim (check_response_status r.status) [
        | some e ↦ (user_error e, etag)
        | none ↦
            decoded_users
              (if contains content_type "application/x-msgpack"
                then msgpack r.body
                else json r.body)
              r.etag etag
      ]

-- `GetUserAlive`: `none` is the error that the context ended; every other failure is an empty map.
unfoldable pub get_user_alive : Decoder (List (ℤ × ℤ)) → Reply → Option (List (ℤ × ℤ))
get_user_alive json failed = some []
get_user_alive json ended = none
get_user_alive json no_response = some []
get_user_alive json (replied r) = if leb_ℤ (pos 399) r.status then some [] else elim (json r.body) [
  | none ↦ some []
  | some none ↦ some []
  | some (some alive) ↦ some alive
]
