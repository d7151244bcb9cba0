-- ===== src/Tests/Fixtures.antt =====
-- A locale, a platform and a registry to run the stores with.
use fabushi_backend.Prelude.{
  suc, zero, text_Eq, ◌==◌, ℕ, ◌+◌, ◌≡◌, refl, true, ◌&&◌, [], ◌∷◌, some, map, every, length, leb,
  arith, Result, ok, if◌then◌else◌,
}
use fabushi_backend.Code.{Code}
use fabushi_backend.Text.{Text, Locale, codes, is_ascii_lower}
use fabushi_backend.Identity.{RawKey}
use fabushi_backend.Release.Rows.{Entries}
use fabushi_backend.Signing.Rows.{Crypto}
use fabushi_backend.Artifact.Rows.{text_lt}
use fabushi_backend.Artifact.Names.{Platform}

abbrev pub lower_unit : ℕ → ℕ
lower_unit c = if leb b'A' c && leb c b'Z' then c + 32 else c

pub lower_text_ascii : (s : Text) → every is_ascii_lower s ≡ true → map lower_unit s ≡ s
unfolding is_ascii_lower
lower_text_ascii [] h = refl
lower_text_ascii (c ∷ s) h = ground (arith, lower_text_ascii s)

-- ASCII letters only.
abbrev pub ascii_locale : Locale
ascii_locale = record { lower = map lower_unit; lower_ascii = lower_text_ascii }

abbrev pub replicate_unit : ℕ → ℕ → Text
replicate_unit zero c = []
replicate_unit (suc n) c = c ∷ replicate_unit n c

-- The signature of a payload is the private key, which is the public key too.
abbrev pub toy_crypto : Crypto
toy_crypto = record {
  fingerprint = λ key. key;
  is_ed25519 = λ key. true;
  sign = λ key payload. key;
  verify = λ key payload signature. key == signature;
  before = text_lt;
}

-- A digest that is a digit of the length, and every text a GitHub URL.
abbrev pub toy_platform : Platform
toy_platform = record {
  parse_url = λ s. some (record {
    protocol = codes "https:";
    username = [];
    password = [];
    port = [];
    hostname = codes "github.com";
    hash = [];
    href = s;
  });
  sha256 = λ bytes. replicate_unit 64 (b'a' + length bytes);
  crypto = toy_crypto;
}

pub keep_namespace :
    (n : Text) (i d : RawKey)
    → ◌≡◌ {A = Result Code RawKey} (ok (record i { namespace = some n })) (ok d)
    → d.namespace ≡ some n
keep_namespace n i d h = ground arith

-- The registry keeps what it is given, under the namespace of the publisher.
abbrev pub toy_entries : Entries
toy_entries = record {
  Input = RawKey;
  Descriptor = RawKey;
  input_namespace = λ i. i.namespace;
  normalize = λ n i. ok (record i { namespace = some n });
  identity = λ d. d;
  digest = λ d. replicate_unit 64 0x61;
  normalize_namespace = keep_namespace;
}
