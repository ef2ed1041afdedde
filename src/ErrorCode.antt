-- ===== src/ErrorCode.antt =====
-- public/error_code: `retcode_t` and `errmsg`. A constructor is the enumerator without its prefix.
use cool_down.Prelude.{ℕ, String, ◌≡◌, refl, Bool, true, false, string_key, nat_key}

pub data RetCode : Type 0 where
  ok unknown client_already_exists client_not_found : RetCode
  pack_send_header_length pack_proto_serialize pack_send_payload pack_recv_header_length : RetCode
  pack_proto_parse pack_recv_payload db_init db_select : RetCode
  db_insert db_update db_init_table_error net_send_message : RetCode
  net_send_data net_recv_message net_bind_port net_connect : RetCode
  net_not_connected net_graceful_shutdown net_connection_limit net_client_busy : RetCode
  proto_parse_error proto_type_error proto_serialize_error verify_invalid_range : RetCode
  file_not_exists file_exists file_cannot_create file_parse_error : RetCode
  file_not_found file_no_owner_online job_exists job_not_exists : RetCode
  job_already_started peer_file_not_found : RetCode

unfoldable pub code : RetCode → ℕ
code ok = 0
code unknown = 1
code client_already_exists = 2
code client_not_found = 3
code pack_send_header_length = 10000
code pack_proto_serialize = 10001
code pack_send_payload = 10002
code pack_recv_header_length = 10010
code pack_proto_parse = 10011
code pack_recv_payload = 10012
code db_init = 20000
code db_select = 20001
code db_insert = 20002
code db_update = 20003
code db_init_table_error = 20010
code net_send_message = 30000
code net_send_data = 30001
code net_recv_message = 30002
code net_bind_port = 30003
code net_connect = 30004
code net_not_connected = 30005
code net_graceful_shutdown = 30006
code net_connection_limit = 30007
code net_client_busy = 30007
code proto_parse_error = 40001
code proto_type_error = 40002
code proto_serialize_error = 40003
code verify_invalid_range = 50001
code file_not_exists = 60001
code file_exists = 60002
code file_cannot_create = 60003
code file_parse_error = 60004
code file_not_found = 60005
code file_no_owner_online = 60006
code job_exists = 70001
code job_not_exists = 70002
code job_already_started = 70003
code peer_file_not_found = 80001

-- `ret == ERROR_OK`; two enumerators are equal in C++ when their numbers are.
unfoldable pub is_ok : RetCode → Bool
is_ok ok = true
is_ok _ = false

pub is_ok_ok : is_ok ok ≡ true
unfolding is_ok
is_ok_ok = refl

unfoldable pub errmsg : RetCode → String
errmsg ok = "Everything is OK."
errmsg unknown = "Unknown Error!"
errmsg pack_send_header_length = "Error while send netpack header."
errmsg _ = "Unknown retcode_t value."
