-- ===== src/Tests/Keys.antt =====
-- What is hashed, the derived keys, and the file of keys, at concrete inputs.
use tinyssh.Common.{◌≡◌, List, [], ◌∷◌, map, Bool, true, some, arith, Returns}
use tinyssh.Bytes.Copy.{zeros, length-zeros}
use tinyssh.Str.{literal}
use tinyssh.Buf.{Buf}
use tinyssh.Buf.Contents.{IsValid, contents, Appends}
use tinyssh.Getln.{Answer, byte}
use tinyssh.AuthorizedKeys.{subprocess_auth_authorizedkeys}
use tinyssh.AuthorizedKeys.Found.{InFile, subprocess_auth_authorizedkeys-InFile}
use tinyssh.KeyExchange.{Exchange}
use tinyssh.KeyExchange.Dh.{fill_hashbuf}
use tinyssh.KeyExchange.NewKeys.{derive_keys}
use tinyssh.KeyExchange.Hashed.{exchanged, fill_hashbuf-Appends}
use tinyssh.KeyExchange.Derived.{AreDerived, derive_keys-AreDerived}
use tinyssh.Tests.Data.{empty, empty-IsValid, short_kex, short_key, three, three-IsValid}
use tinyssh.Tests.Exchange.{prims, second}

-- An exchange with arrays of the size of a key.
abbrev sized : Exchange
sized = record second {
  hashbuf = empty 300;
  hellosend = three;
  helloreceive = three;
  kexsend = three;
  kexrecv = three;
  clientnonce = zeros 128;
  servernonce = zeros 128;
  clientkey = zeros 128;
  serverkey = zeros 128;
  clientmackey = zeros 128;
  servermackey = zeros 128;
}

fill_hashbuf-Appends_example :
    (e : Buf) × IsValid e
    × (contents e ≡ [])
    × (e.alloc ≡ 300)
    × Appends e
        (exchanged sized short_kex short_key (zeros 32) (zeros 32) (1 ∷ zeros 31))
        (fill_hashbuf sized short_kex short_key (zeros 32) (zeros 32) (1 ∷ zeros 31))
fill_hashbuf-Appends_example =
    fill_hashbuf-Appends sized short_kex short_key (zeros 32) (zeros 32) (1 ∷ zeros 31)
      (empty-IsValid 300 (omega arith) (omega arith)) three-IsValid three-IsValid three-IsValid
      three-IsValid (length-zeros 32) (omega (arith, length-zeros 32)) (omega arith)
      (omega (arith, length-zeros 32)) (omega arith) (omega (arith, length-zeros 31))

derive_keys-AreDerived_example :
    Returns
      (derive_keys prims sized short_kex (1 ∷ zeros 31) (zeros 32) (empty 300))
      (λ r. AreDerived prims sized short_kex (1 ∷ zeros 31) (zeros 32) r.1)
derive_keys-AreDerived_example =
    derive_keys-AreDerived prims sized short_kex (1 ∷ zeros 31) (zeros 32) (λ m. length-zeros 32)
      (length-zeros 32) (omega arith) (omega (arith, length-zeros 31))
      (omega (arith, length-zeros 62)) (omega arith) (empty 300)
      (empty-IsValid 300 (omega arith) (omega arith)) (omega (arith, length-zeros 128))
      (omega (arith, length-zeros 128)) (omega (arith, length-zeros 128))
      (omega (arith, length-zeros 128)) (omega (arith, length-zeros 128))
      (omega (arith, length-zeros 128))

-- A comment and a line with the key `k`.
abbrev key_file : List Answer
key_file = map byte (literal "#\nssh k me")

subprocess_auth_authorizedkeys-InFile_example :
    (r : Bool) × (subprocess_auth_authorizedkeys
        (literal "ssh")
        (literal "k")
        (zeros 40)
        40
        key_file
      ≡ some r)
    × (r ≡ true → InFile (literal "ssh") (literal "k") key_file)
subprocess_auth_authorizedkeys-InFile_example =
    subprocess_auth_authorizedkeys-InFile (literal "ssh") (literal "k")
      (ground arith, (ground arith, (ground arith, tt))) (ground arith, tt) (zeros 40) 39 key_file
      (omega (arith, length-zeros 40))
