-- ===== src/Http/Version.antt =====
-- headers/http/Version.hpp and sources/http/Version.cpp.
pub mod Laws
use fion.Prelude.{if◌then◌else◌}
use fion.Prelude.Results.{Exception, Result, ok, err}
use fion.Text.{Bytes, codes, equal}

pub data Version : Type 0 where
  http_0_9 http_1_0 http_1_1 http_2_0 http_3_0 : Version

unfoldable pub string_to_version : Bytes → Result Version
string_to_version raw =
    if equal raw (codes "HTTP/0.9")
    then ok Version.http_0_9
    else if equal raw (codes "HTTP/1.0")
    then ok Version.http_1_0
    else if equal raw (codes "HTTP/1.1")
    then ok Version.http_1_1
    else if equal raw (codes "HTTP/2.0")
    then ok Version.http_2_0
    else if equal raw (codes "HTTP/3.0")
    then ok Version.http_3_0
    else err (Exception.invalid_argument (codes "Invalid HTTP Version"))

-- The `default` of the source's switch is for values outside the enumeration.
unfoldable pub version_to_string : Version → Bytes
version_to_string Version.http_0_9 = codes "HTTP/0.9"
version_to_string Version.http_1_0 = codes "HTTP/1.0"
version_to_string Version.http_1_1 = codes "HTTP/1.1"
version_to_string Version.http_2_0 = codes "HTTP/2.0"
version_to_string Version.http_3_0 = codes "HTTP/3.0"
