-- ===== src/Tests/Http.antt =====
-- A request with a name that is too short, and one whose memory is a string.
use r_faa_s.Common.{some, [], ◌∷◌}
use r_faa_s.Common.Int.{pos}
use r_faa_s.ResourceManager.Http.{Document, Request, string, int, add_resource}
use r_faa_s.Tests.ResourceManager.{address}

abbrev document : Document
document = record {
  ip_address = some (string address);
  port = some (int (pos 80));
  cores = some (int (pos 4));
  memory = some (int (pos 100));
}

abbrev request : Request
request = record { node = some (97 ∷ []); resource = add_resource; document = document }
