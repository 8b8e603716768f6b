-- ===== src/Server/Message.antt =====
-- server/header.hpp and server/request.hpp.
use license_checker.Prelude.{ℕ, Text, List, []}

pub record Header : Type 0 where
  pub name : Text
  pub value : Text

abbrev pub no_header : Header
no_header = record { name = []; value = [] }

-- The version numbers are 0 where the source leaves them uninitialised; they are set before use.
pub record Request : Type 0 where
  pub method : Text
  pub uri : Text
  pub http_version_major : ℕ
  pub http_version_minor : ℕ
  pub headers : List Header
  pub parameters : List Header

abbrev pub no_request : Request
no_request = record {
  method = [];
  uri = [];
  http_version_major = 0;
  http_version_minor = 0;
  headers = [];
  parameters = [];
}
