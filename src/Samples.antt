-- ===== src/Samples.antt =====
-- A concrete libcrypto, world and keys for the tests.
use ossl_go.Prelude.{ℕ, if◌then◌else◌, ◌==◌, ◌||◌, str_eq, List, [], ◌∷◌, Option, some, String}
use ossl_go.Prelude.Int.{pos}
use ossl_go.Cgo.{Call, Reply, KeyInfo, World}
use ossl_go.Context.{default}
use ossl_go.Key.{Key}

abbrev pub no_key : KeyInfo
no_key = record { type_name = ""; bits = 0; security_bits = 0; size = 0 }

-- It answers 1 to every call, and reports the lengths 2.
abbrev pub agreeing : List Call → Call → Reply
agreeing t c = record {
  rc = pos 1;
  out = 7 ∷ 9 ∷ [];
  len = 2;
  out2 = 5 ∷ [];
  len2 = 1;
  text = "";
  text2 = "";
  key = no_key;
  errs = [];
}

abbrev pub fresh : World
fresh = record { lib = agreeing; trace = []; queue = []; live = λ a. 0; next = 1; bad_frees = 0 }

abbrev pub key_info : String → KeyInfo
key_info t = record { type_name = t; bits = 16; security_bits = 128; size = 2 }

abbrev pub key_of : String → Option Key
key_of t =
    some (record { pkey = some (record { addr = 100; info = key_info t }); ctx = some default })

-- It writes a DER signature to every buffer.
abbrev pub der : List ℕ
der = 0x30 ∷ 7 ∷ 2 ∷ 2 ∷ 0 ∷ 0x80 ∷ 2 ∷ 1 ∷ 0 ∷ []

abbrev pub signing : List Call → Call → Reply
signing t c = record {
  rc = pos 1;
  out = der;
  len = 9;
  out2 = [];
  len2 = 0;
  text = "";
  text2 = "";
  key = no_key;
  errs = [];
}

abbrev pub signing_world : World
signing_world = record fresh { lib = signing }

-- It answers every call with a block of two bytes that ends in an X9.23 padding.
abbrev pub in_blocks : List Call → Call → Reply
in_blocks t c =
    let n : ℕ =
      if str_eq c.fn "EVP_DecryptUpdate" || str_eq c.fn "EVP_EncryptUpdate" then 2 else 0 in
    record {
      rc = pos 1;
      out = if n == 0 then [] else 7 ∷ 1 ∷ [];
      len = n;
      out2 = [];
      len2 = 0;
      text = "";
      text2 = "";
      key = no_key;
      errs = [];
    }

abbrev pub block_world : World
block_world = record fresh { lib = in_blocks }
