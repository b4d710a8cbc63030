-- ===== src/Panel/Client.antt =====
-- internal/panel/client.go: the requests of the client, by the response that they get: what is kept
-- between requests, and when a node counts as unchanged. Sending a request is resty's work, and
-- decoding a body `encoding/json`'s: both are parameters.
use Prim.Native.Char.{Char, code}
use v2sudoku.Prelude.{
  ◌⊎◌, ◌≢◌, sym, subst, All, Option-cases, nat_beq, ℤ, pos, ◌≡◌, refl, ap, ◌∙◌, int_beq_iff, String,
  List, [], ◌∷◌, Bool, true, false, ◌||◌, Option, none, some, ◌==◌, int_eq, string_eq,
  if◌then◌else◌, arith, Bool-cases, inl, inr, ltb_ℤ, add64, ◌≤ℤ◌, str_eq_iff,
}
use v2sudoku.Dict.{lookup, insert}
use v2sudoku.Dict.Laws.{lookup-insert}
use v2sudoku.Panel.{NodeInfo, UserTraffic}
use v2sudoku.Panel.Node.{NormalizeError, normalize}

-- The parts of `Client` that the requests read and write.
pub record Client : Type 0 where
  pub api_host : String
  pub node_id : ℤ
  pub node_etag : String
  pub response_body_hash : String

pub record Response : Type 0 where
  pub status : ℤ
  pub body : String
  pub etag : String

pub data PanelError : Type 0 where
  request_failed canceled nil_response decode_failed : PanelError
  status_error : ℤ → PanelError
  normalize_failed : NormalizeError → PanelError

-- What resty returns: an error, which may be that the context ended, no response, or one.
pub data Reply : Type 0 where
  failed : Reply
  ended : Reply
  no_response : Reply
  replied : Response → Reply

-- `checkResponseStatus`, with the status alone of the error.
unfoldable pub check_response_status : ℤ → Option PanelError
check_response_status status =
    if ltb_ℤ status (pos 400) then none else some (PanelError.status_error status)

unfoldable pub is_auth_status_error : PanelError → Bool
is_auth_status_error (PanelError.status_error status) = status == pos 401 || status == pos 403
is_auth_status_error _ = false

-- The result of `GetNodeInfo`: a node, nil for one that has not changed, or an error.
pub data NodeResult : Type 0 where
  node : NodeInfo → NodeResult
  unchanged : NodeResult
  node_error : PanelError → NodeResult

abbrev from_normalize : Option NormalizeError × NodeInfo → NodeResult
from_normalize (none, cfg) = node cfg
from_normalize (some e, cfg) = node_error (PanelError.normalize_failed e)

abbrev from_decoded : Client → Option NodeInfo → NodeResult
from_decoded c none = node_error PanelError.decode_failed
from_decoded c (some cfg) = from_normalize (normalize c.node_id c.api_host cfg)

abbrev is_quote : Char → Bool
is_quote c = nat_beq (code c) 34

trim_left_quotes : String → String
trim_left_quotes String.[] = ""
trim_left_quotes (String.◌∷◌ c s) = if is_quote c then trim_left_quotes s else String.◌∷◌ c s

abbrev push_unquoted : Char → String → String
push_unquoted c String.[] = if is_quote c then "" else String.◌∷◌ c ""
push_unquoted c (String.◌∷◌ d s) = String.◌∷◌ c (String.◌∷◌ d s)

trim_right_quotes : String → String
trim_right_quotes String.[] = ""
trim_right_quotes (String.◌∷◌ c s) = push_unquoted c (trim_right_quotes s)

-- `strings.Trim(s, "\"")`
unfoldable pub trim_quotes : String → String
unfolding trim_left_quotes trim_right_quotes
trim_quotes s = trim_right_quotes (trim_left_quotes s)

trim_quotes_test : trim_quotes "\"a\"b\"" ≡ "a\"b"
unfolding trim_quotes
trim_quotes_test = refl

-- `hash` is SHA-256 in hexadecimal, and `decode` is `json.Unmarshal` into a new `NodeInfo`.
module _ (hash : String → String) (decode : String → Option NodeInfo) where
  -- The end of `GetNodeInfo`: the hash and the tag of the body are kept before it is decoded.
  take_body : Response → Client → NodeResult × Client
  take_body r c = if c.response_body_hash == hash r.body then (unchanged, c) else (
    from_decoded c (decode r.body),
    record c { response_body_hash = hash r.body; node_etag = trim_quotes r.etag },
  )

  unfoldable pub get_node_info : Reply → Client → NodeResult × Client
  unfolding take_body
  get_node_info failed c = (node_error PanelError.request_failed, c)
  get_node_info ended c = (node_error PanelError.canceled, c)
  get_node_info no_response c = (node_error PanelError.nil_response, c)
  get_node_info (replied r) c =
      if r.status == pos 304 then (unchanged, c) else elim (check_response_status r.status) [
        | some e ↦ (node_error e, c)
        | none ↦ take_body r c
      ]

  take_body_again :
      (r : Response) (c : Client) → take_body r (take_body r c).1 ≡ (unchanged, (take_body r c).1)
  unfolding take_body
  take_body_again r c = elim (Bool-cases (c.response_body_hash == hash r.body)) [
    | inl same ↦ rw (same, take_body, same)
    | inr other ↦
        let self : (hash r.body == hash r.body) ≡ true =
          (str_eq_iff (hash r.body) (hash r.body)).1 refl in
        rw (other, self)
  ]

  -- A reply that has no body to take.
  abbrev pub IsBodiless : Reply → Type 0
  IsBodiless failed = Unit
  IsBodiless ended = Unit
  IsBodiless no_response = Unit
  IsBodiless (replied r) = ((r.status == pos 304) ≡ true) ⊎ (check_response_status r.status ≢ none)

  get_node_info-IsBodiless : (x : Reply) (c : Client) → IsBodiless x → (get_node_info x c).1 ≡ c
  unfolding get_node_info
  get_node_info-IsBodiless failed c h = refl
  get_node_info-IsBodiless ended c h = refl
  get_node_info-IsBodiless no_response c h = refl
  get_node_info-IsBodiless (replied r) c (inl same) = rw same refl
  get_node_info-IsBodiless (replied r) c (inr bad) = elim (Bool-cases (r.status == pos 304)) [
    | inl same ↦ rw same refl
    | inr fresh ↦ elim (Option-cases (check_response_status r.status)) [
      | inl good ↦ absurd (bad good)
      | inr (x, error) ↦ rw (fresh, error) refl
    ]
  ]

  -- Requests, one after the other.
  unfoldable pub get_all : List Reply → Client → Client
  unfolding get_node_info
  get_all [] c = c
  get_all (x ∷ xs) c = get_all xs (get_node_info x c).1

  get_all-IsBodiless : (xs : List Reply) (c : Client) → All IsBodiless xs → get_all xs c ≡ c
  unfolding get_all
  get_all-IsBodiless [] c h = refl
  get_all-IsBodiless (x ∷ xs) c h =
      ap (get_all xs) (get_node_info-IsBodiless x c h.0) ∙ get_all-IsBodiless xs c h.1

  -- For a response whose status is neither 304 nor an error: after a request that got it, whatever came out
  -- of its body, and any requests whose replies have no body to take, the next request that gets the
  -- same response says that the node is unchanged, also where the first one failed to decode or to
  -- accept the node.
  pub get_node_info_again :
      (r : Response) (c : Client) (between : List Reply)
      → (r.status == pos 304) ≡ false
      → check_response_status r.status ≡ none
      → All IsBodiless between
      → let c' = get_all between (get_node_info (replied r) c).1 in
        get_node_info (replied r) c' ≡ (unchanged, c')
  unfolding get_node_info
  get_node_info_again r c between fresh good bodiless =
      let first = (get_node_info (replied r) c).1 in
      let again : get_node_info (replied r) first ≡ (unchanged, first) =
        ground (arith, fresh, good, take_body_again r c) in
      subst (λ x. get_node_info (replied r) x ≡ (unchanged, x))
        (sym (get_all-IsBodiless between first bodiless)) again

  -- An error status leaves the client as it was; so does a request that fails.
  pub get_node_info-status_error :
      (r : Response) (c : Client)
      → pos 400 ≤ℤ r.status
      → get_node_info (replied r) c ≡ (node_error (PanelError.status_error r.status), c)
  unfolding get_node_info check_response_status
  get_node_info-status_error r c h = ground (arith, h)

-- The sums that `ReportUserTraffic` sends: upload and download by UID.
unfoldable pub report_data : List UserTraffic → List (ℤ × (ℤ × ℤ)) → List (ℤ × (ℤ × ℤ))
report_data [] sums = sums
report_data (traffic ∷ rest) sums =
    let current : ℤ × ℤ = elim (lookup traffic.uid sums) [ none ↦ (pos 0, pos 0) | some x ↦ x ] in
    report_data rest
      (insert traffic.uid (add64 current.0 traffic.upload, add64 current.1 traffic.download) sums)

-- The sums of one user.
abbrev pub sum_at : ℤ → List (ℤ × (ℤ × ℤ)) → ℤ × ℤ
sum_at uid sums = elim (lookup uid sums) [ none ↦ (pos 0, pos 0) | some x ↦ x ]

-- The traffic of one user's rows, row by row.
unfoldable pub added_up : ℤ → List UserTraffic → ℤ × ℤ → ℤ × ℤ
added_up uid [] x = x
added_up uid (t ∷ ts) x =
    added_up uid ts (if t.uid == uid then (add64 x.0 t.upload, add64 x.1 t.download) else x)

abbrev value_of : Option (ℤ × ℤ) → ℤ × ℤ
value_of o = elim o [ none ↦ (pos 0, pos 0) | some x ↦ x ]

value_of-if :
    (b : Bool) (x : ℤ × ℤ) (o : Option (ℤ × ℤ))
    → value_of (if b then some x else o) ≡ (if b then x else value_of o)
value_of-if true x o = refl
value_of-if false x o = refl

if-same :
    (b : Bool) (f : ℤ × ℤ → ℤ × ℤ) (x y : ℤ × ℤ)
    → (b ≡ true → x ≡ y)
    → (if b then f x else y) ≡ (if b then f y else y)
if-same true f x y h = ap f (h refl)
if-same false f x y h = refl

-- What `ReportUserTraffic` sends for a user is the sum of the rows with the user's ID, in 64 bits, and
-- depends on no other row.
pub report_data-sum_at :
    (uid : ℤ) (rows : List UserTraffic) (sums : List (ℤ × (ℤ × ℤ)))
    → sum_at uid (report_data rows sums) ≡ added_up uid rows (sum_at uid sums)
unfolding report_data added_up
report_data-sum_at uid [] sums = refl
report_data-sum_at uid (t ∷ ts) sums =
    let f : ℤ × ℤ → ℤ × ℤ = λ x. (add64 x.0 t.upload, add64 x.1 t.download) in
    let row = f (sum_at t.uid sums) in
    let own : (t.uid == uid) ≡ true → sum_at t.uid sums ≡ sum_at uid sums =
      λ same. ap (λ u. sum_at u sums) ((int_beq_iff t.uid uid).0 same) in
    report_data-sum_at uid ts (insert t.uid row sums)
    ∙ ap (added_up uid ts) (
        ap value_of (lookup-insert t.uid uid row sums)
        ∙ value_of-if (t.uid == uid) row (lookup uid sums)
        ∙ if-same (t.uid == uid) f (sum_at t.uid sums) (sum_at uid sums) own)
