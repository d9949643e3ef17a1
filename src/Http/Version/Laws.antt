-- ===== src/Http/Version/Laws.antt =====
-- `stringToVersion` and `VersionToString` are inverse to one another.
use fion.Prelude.{◌≡◌, refl, ◌↔◌, arith}
use fion.Prelude.Results.{ok}
use fion.Text.{Bytes, codes, equal}
use fion.Text.Equal.{equal_iff}
use fion.Http.Version.{Version, string_to_version, version_to_string}

pub string_to_version_self : (v : Version) → string_to_version (version_to_string v) ≡ ok v
unfolding string_to_version version_to_string equal
string_to_version_self Version.http_0_9 = refl
string_to_version_self Version.http_1_0 = refl
string_to_version_self Version.http_1_1 = refl
string_to_version_self Version.http_2_0 = refl
string_to_version_self Version.http_3_0 = refl

string_to_version_sound :
    (s : Bytes) (v : Version) → string_to_version s ≡ ok v → s ≡ version_to_string v
unfolding string_to_version version_to_string
string_to_version_sound s v h = ground (
  arith,
  equal_iff s (codes "HTTP/0.9"),
  equal_iff s (codes "HTTP/1.0"),
  equal_iff s (codes "HTTP/1.1"),
  equal_iff s (codes "HTTP/2.0"),
  equal_iff s (codes "HTTP/3.0"),
)

-- A text is read as a version exactly when it is what that version is printed as.
pub string_to_version_iff :
    (s : Bytes) (v : Version) → (string_to_version s ≡ ok v) ↔ (s ≡ version_to_string v)
string_to_version_iff s v = (string_to_version_sound s v, λ e. rw e (string_to_version_self v))
