-- ===== src/Tests/Bytes.antt =====
-- Bytes, buffers and the parser at concrete inputs.
use tinyssh.Common.{◌≡◌, [], ◌∷◌, take, drop, arith, true, ◌↔◌, ℕ, List}
use tinyssh.Bytes.{byte_move, byte_isequal}
use tinyssh.Bytes.Equal.{byte_isequal_iff}
use tinyssh.Bytes.Copy.{splice, byte_move-splice}
use tinyssh.Buf.{buf_put, buf_putsharedsecret}
use tinyssh.Buf.Contents.{Appends, buf_put-Appends}
use tinyssh.Buf.Mpint.{mpint, buf_putsharedsecret-mpint}
use tinyssh.Tests.Data.{three, three-IsValid, empty, empty-IsValid}

byte_move-splice_example :
    byte_move (1 ∷ 2 ∷ 3 ∷ 4 ∷ []) 0 3 1
    ≡ splice (1 ∷ 2 ∷ 3 ∷ 4 ∷ []) 0 (take 3 (drop 1 (1 ∷ 2 ∷ 3 ∷ 4 ∷ [])))
byte_move-splice_example = byte_move-splice (1 ∷ 2 ∷ 3 ∷ 4 ∷ []) 0 3 1 (omega arith) (omega arith)

buf_put-Appends_example : Appends three (take 2 (7 ∷ 8 ∷ [])) (buf_put three (7 ∷ 8 ∷ []) 2)
buf_put-Appends_example =
    buf_put-Appends three three-IsValid (7 ∷ 8 ∷ []) 2 (omega arith) (omega arith)

-- A secret with two zeros in front and the highest bit set behind them.
buf_putsharedsecret-mpint_example :
    Appends
      (empty 16)
      (mpint (0 ∷ 0 ∷ 200 ∷ 1 ∷ []))
      (buf_putsharedsecret (empty 16) (0 ∷ 0 ∷ 200 ∷ 1 ∷ []) 4)
buf_putsharedsecret-mpint_example =
    buf_putsharedsecret-mpint (empty 16) (0 ∷ 0 ∷ 200 ∷ 1 ∷ [])
      (empty-IsValid 16 (omega arith) (omega arith)) (omega arith)

abbrev longer : List ℕ
longer = 1 ∷ 2 ∷ 3 ∷ []

abbrev shorter : List ℕ
shorter = 1 ∷ 2 ∷ []

byte_isequal_iff_example : (byte_isequal longer 2 shorter ≡ true) ↔ (take 2 longer ≡ take 2 shorter)
byte_isequal_iff_example = byte_isequal_iff longer shorter 2 (omega arith) (omega arith)
