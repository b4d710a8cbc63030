-- ===== src/Panel/Tests.antt =====
-- Runs of the panel client (internal/panel/client.go).
use v2sudoku.Prelude.{◌≡◌, ◌≢◌, inr, refl, String, List, [], ◌∷◌, Option, none, pos, int_eq}
use v2sudoku.Panel.{NodeInfo, UserTraffic}
use v2sudoku.Panel.Settings.{TableValue, RawSettings}
use v2sudoku.Panel.Node.{normalize}
use v2sudoku.Panel.Client.{
  Client, Response, unchanged, replied, check_response_status, get_node_info, get_all, Reply,
  get_node_info_again,
}
use v2sudoku.Runtime.Samples.{node_one}

abbrev served : NodeInfo
served = (normalize (pos 7) "h" node_one).1

accepted : normalize (pos 7) "h" node_one ≡ (none, served)
unfolding normalize
accepted = refl

abbrev client_one : Client
client_one = record { api_host = "h"; node_id = pos 7; node_etag = ""; response_body_hash = "" }

abbrev garbled : Response
garbled = record { status = pos 200; body = "{"; etag = "" }

abbrev decode_nothing : String → Option NodeInfo
decode_nothing body = none

abbrev hash_one : String → String
hash_one body = body

-- Between the two, a request fails and one is answered with 502.
abbrev between_one : List Reply
between_one = Reply.failed ∷ replied (record { status = pos 502; body = ""; etag = "" }) ∷ []

bad_gateway : check_response_status (pos 502) ≢ none
unfolding check_response_status
bad_gateway e = absurd (cc e)

get_node_info_again_example :
    let c' =
      get_all hash_one decode_nothing between_one
        (get_node_info hash_one decode_nothing (replied garbled) client_one).1 in
    get_node_info hash_one decode_nothing (replied garbled) c' ≡ (unchanged, c')
unfolding check_response_status
get_node_info_again_example =
    get_node_info_again hash_one decode_nothing garbled client_one between_one refl refl
      (tt, (inr bad_gateway, tt))

abbrev rows_one : List UserTraffic
rows_one =
    (record { uid = pos 1; upload = pos 5; download = pos 6; uuid = "a" })
    ∷ (record { uid = pos 2; upload = pos 9; download = pos 9; uuid = "b" })
    ∷ (record { uid = pos 1; upload = pos 1; download = pos 2; uuid = "c" })
    ∷ []

abbrev raw_one : RawSettings
raw_one = record {
  master_public_key = "k";
  master_private_key = "";
  aead = "";
  aead_method = "";
  aead_method_k = "";
  ascii = "";
  table_type = "";
  table_type_k = "";
  padding_min = pos 0;
  padding_min_k = pos 3;
  padding_max = pos 0;
  padding_max_k = pos 0;
  enable_pure_downlink = none;
  enable_pure_downlink_k = none;
  multiplex = "";
  fallback_address = "";
  suspicious_action = "";
  custom_table = "";
  custom_table_k = "";
  custom_tables = TableValue.text "xx, yy";
  custom_tables_k = TableValue.other_value;
  http_mask = record {
    disable = none;
    mode = "";
    tls = none;
    host = "";
    mask_host = "";
    mask_host_k = "";
    path_root = "";
    path_root_k = "";
    multiplex = "";
  };
}
