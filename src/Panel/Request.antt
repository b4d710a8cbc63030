-- ===== src/Panel/Request.antt =====
-- internal/panel/client.go: how the client is set up, what it posts, and its status errors. What resty does
-- with the options, and the sending, are its own work.
use v2sudoku.Prelude.{
  ℕ, ℤ, pos, String, List, [], ◌∷◌, ◌++◌, Option, none, some, ltb_ℤ, mul64, if◌then◌else◌, take,
  length, ltb,
}
use v2sudoku.Text.Bytes.{bytes}
use v2sudoku.Text.Trim.{trim_space}
use v2sudoku.Text.Decimal.{itoa}
use v2sudoku.Conf.{NodeConfig, default_node_retry_count, default_node_timeout}
use v2sudoku.Panel.{UserTraffic}
use v2sudoku.Panel.Client.{
  Client, Response, Reply, failed, ended, no_response, replied, PanelError, check_response_status,
  report_data,
}

-- What `New` sets on the resty client; the timeout is in nanoseconds.
pub record ClientOptions : Type 0 where
  pub retry_count : ℤ
  pub timeout : ℤ
  pub base_url : String
  pub query_params : List (String × String)

abbrev pub second : ℤ
second = pos 1000000000

-- `New` of the client.
unfoldable pub new_client : NodeConfig → Client × ClientOptions
new_client c = (
  record { api_host = c.api_host; node_id = c.node_id; node_etag = ""; response_body_hash = "" },
  record {
    retry_count = elim c.retry_count [ none ↦ default_node_retry_count | some n ↦ n ];
    timeout =
        if ltb_ℤ (pos 0) c.timeout
        then mul64 c.timeout second
        else mul64 default_node_timeout second;
    base_url = c.api_host;
    query_params = ("node_type", "v2node") ∷ ("node_id", itoa c.node_id) ∷ ("token", c.key) ∷ [];
  },
)

-- The bytes of a response that an error keeps.
unfoldable pub short_response_body : String → List ℕ
short_response_body body =
    let text = bytes (trim_space body) in if ltb 256 (length text) then take 256 text else text

pub record StatusError : Type 0 where
  pub status_code : ℤ
  pub body : List ℕ

-- The error of `checkResponseStatus`, in full.
abbrev pub status_error_of : Response → StatusError
status_error_of r = record { status_code = r.status; body = short_response_body r.body }

-- `Error`
abbrev pub error_text : StatusError → List ℕ
error_text e =
    bytes "panel request failed: status="
    ++ (bytes (itoa e.status_code) ++ (bytes " body=" ++ e.body))

-- The end of both requests that post: an error of resty, or that of the status.
unfoldable pub posted : Reply → Option PanelError
posted failed = some PanelError.request_failed
posted ended = some PanelError.canceled
posted no_response = some PanelError.nil_response
posted (replied r) = check_response_status r.status

-- `ReportUserTraffic`, by what the panel replies to the sums.
unfoldable pub report_user_traffic :
    (List (ℤ × (ℤ × ℤ)) → Reply) → List UserTraffic → Option PanelError
unfolding posted
report_user_traffic post rows = posted (post (report_data rows []))

-- `ReportNodeOnlineUsers`, by what the panel replies to the addresses.
unfoldable pub report_node_online_users :
    (List (ℤ × List String) → Reply) → List (ℤ × List String) → Option PanelError
unfolding posted
report_node_online_users post online = posted (post online)
