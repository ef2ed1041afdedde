-- ===== src/Client/ConnectionHandler/Tests.antt =====
-- A client without jobs.
use cool_down.Prelude.{string_key, nat_key}
