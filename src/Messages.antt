-- ===== src/Messages.antt =====
-- The messages of proto/tracker.proto and proto/client.proto, and public/include/payload_type.h. The
-- generated classes are the records of their fields; a message of any class is a `Message`, and
-- `cast` is the `SharedPtr::cast` to one class.
use cool_down.Prelude.{ℕ, String, Option, none, some, List, Bool}
use cool_down.Prelude.Int.{ℤ}

-- proto/tracker.proto
pub record Peer : Type 0 where
  pub client_id : String
  pub ip : String
  pub message_port : ℤ

pub record PeerFileInfo : Type 0 where
  pub client : Peer
  pub percentage : ℤ

pub record QueryPeer : Type 0 where
  pub file_id : String
  pub percentage : ℤ
  pub need_count : ℤ
  pub owned_clients : List String

pub record QueryPeerReply : Type 0 where
  pub return_code : ℕ
  pub file_id : String
  pub count : ℕ
  pub info : List PeerFileInfo

-- An optional field that is not set is `none`.
pub record Login : Type 0 where
  pub client_id : String
  pub login_ip : Option String
  pub message_port : ℤ

pub record Logout : Type 0 where
  pub client_id : String

pub record ReportProgress : Type 0 where
  pub client_id : String
  pub file_id : String
  pub percentage : ℤ

pub record PublishResource : Type 0 where
  pub client_id : String
  pub file_id : String

pub record MessageReply : Type 0 where
  pub return_code : ℕ

-- proto/client.proto
pub record FileInfo : Type 0 where
  pub file_id : String
  pub has_file : Bool
  pub percentage : ℤ
  pub file_bit : List ℕ
  pub file_bit_count : ℕ

pub record ShakeHand : Type 0 where
  pub client_id : String
  pub info : FileInfo

pub record UploadRequest : Type 0 where
  pub client_id : String
  pub file_id : String
  pub chunk_number : ℤ

pub record UploadReply : Type 0 where
  pub return_code : ℕ

pub data Message : Type 0 where
  login : Login → Message
  logout : Logout → Message
  query_peer : QueryPeer → Message
  query_peer_reply : QueryPeerReply → Message
  report_progress : ReportProgress → Message
  publish_resource : PublishResource → Message
  message_reply : MessageReply → Message
  shake_hand : ShakeHand → Message
  upload_request : UploadRequest → Message
  upload_reply : UploadReply → Message

abbrev pub cast_message_reply : Message → Option MessageReply
cast_message_reply (message_reply m) = some m
cast_message_reply _ = none

abbrev pub cast_query_peer_reply : Message → Option QueryPeerReply
cast_query_peer_reply (query_peer_reply m) = some m
cast_query_peer_reply _ = none

abbrev pub cast_upload_reply : Message → Option UploadReply
cast_upload_reply (upload_reply m) = some m
cast_upload_reply _ = none

-- The named payload types, and any other number.
pub data PayloadType : Type 0 where
  payload_login payload_logout payload_request_peer payload_report_progress : PayloadType
  payload_publish_resource payload_message_reply payload_request_peer_replay : PayloadType
  payload_shake_hand payload_upload_request payload_upload_reply : PayloadType

unfoldable pub payload_code : PayloadType → ℕ
payload_code payload_login = 10000
payload_code payload_logout = 10001
payload_code payload_request_peer = 10002
payload_code payload_report_progress = 10003
payload_code payload_publish_resource = 10004
payload_code payload_message_reply = 20001
payload_code payload_request_peer_replay = 20002
payload_code payload_shake_hand = 30001
payload_code payload_upload_request = 30002
payload_code payload_upload_reply = 40001
