-- ===== src/Hello/Accepts.antt =====
-- writeall.c, and what packet_hello.c makes of the line that it has sent or read.
use tinyssh.Common.{
  ℕ, zero, suc, ◌+◌, ◌-◌, ◌≤◌, ◌<◌, ◌≡◌, ◌≢◌, refl, sym, ap, ◌∙◌, List, [], ◌∷◌, ◌++◌, Bool, true,
  false, arith, All, length, take, drop, set, get_or, min, append_assoc, length-append, Option,
  none, some, subst, le→ltb-false, length-set, take-append-drop, take-set_le, get_or-append,
  take-append, take-take, All-append, if◌then◌else◌, ◌↔◌,
}
use tinyssh.Bytes.{byte_isequal, purge}
use tinyssh.Bytes.Equal.{byte_isequal_iff}
use tinyssh.Bytes.Copy.{purge-splice, take-splice_before}
use tinyssh.Str.{str_len, literal}
use tinyssh.Buf.{Buf}
use tinyssh.Buf.Contents.{contents}
use tinyssh.Getln.Lines.{IsPlain}
use tinyssh.Hello.{Written, wrote, later, broken, writeall, strip, accept_hello}
use tinyssh.Hello.Texts.{str_len-append, IsPlain-nonzero}

-- What `writeall` of `x` has done: everything is written when it returns 0, and the front of it when
-- it returns -1.
pub data Writes (x : List ℕ) : Option (Bool × List ℕ) → Type 0 where
  waiting : Writes x none
  whole : Writes x (some (true, x))
  front : (k : ℕ) → Writes x (some (false, take k x))

take_add : (n k : ℕ) (x : List ℕ) → take n x ++ take k (drop n x) ≡ take (n + k) x
take_add zero k x = ap (λ j. take j x) (omega arith)
take_add (suc n) k [] = take_nil k ∙ sym (take_nil (suc n + k))
  where
    take_nil : (j : ℕ) → take {A = ℕ} j [] ≡ []
    take_nil zero = refl
    take_nil (suc j) = refl
take_add (suc n) k (b ∷ x) =
    let step : suc (n + k) ≡ suc n + k = omega arith in
    ap (◌∷◌ b) (take_add n k x) ∙ ap (λ j. take j (b ∷ x)) step

pub writeall-Writes : (x : List ℕ) (answers : List Written) → Writes x (writeall x answers)
unfolding writeall
writeall-Writes [] answers = whole
writeall-Writes (b ∷ x) [] = waiting
writeall-Writes (b ∷ x) (later ∷ answers) = writeall-Writes (b ∷ x) answers
writeall-Writes (b ∷ x) (broken ∷ answers) = front 0
writeall-Writes (b ∷ x) (wrote w ∷ answers) =
    behind (min w (min (length (b ∷ x)) 1_048_576))
      (writeall-Writes (drop (min w (min (length (b ∷ x)) 1_048_576)) (b ∷ x)) answers)
  where
    behind :
        (n : ℕ) {r : Option (Bool × List ℕ)}
        → Writes (drop n (b ∷ x)) r
        → Writes
            (b ∷ x)
            (elim r [ none ↦ none | some (done, more) ↦ some (done, take n (b ∷ x) ++ more) ])
    behind n waiting = waiting
    behind n whole =
        subst (λ z. Writes (b ∷ x) (some (true, z))) (sym (take-append-drop n (b ∷ x))) whole
    behind n (front k) =
        subst (λ z. Writes (b ∷ x) (some (false, z))) (sym (take_add n k (b ∷ x))) (front (n + k))

-- A line with its end in memory, and what `accept_hello` does to it.
module _ (b : Buf) (mem v rest : List ℕ) (plain : All IsPlain v)
    (holds : mem ≡ v ++ (13 ∷ 10 ∷ 0 ∷ rest)) (four : 4 ≤ length v) (size : b.alloc ≤ length mem)
    (room : length v + 2 < b.alloc) where
  shown : str_len mem ≡ length v + 2
  shown =
      ap str_len (holds ∙ sym (append_assoc v (13 ∷ 10 ∷ []) (0 ∷ rest)))
      ∙ str_len-append (v ++ (13 ∷ 10 ∷ [])) rest (
          All-append (λ c. c ≢ 0) v (13 ∷ 10 ∷ []) (IsPlain-nonzero v plain)
            (ground arith, (ground arith, tt)))
      ∙ length-append v (13 ∷ 10 ∷ [])

  at_line_feed : get_or mem (length v + 2 - 1) 0 ≡ 10
  at_line_feed =
      ap (λ m. get_or m (length v + 2 - 1) 0) holds
      ∙ get_or-append v (13 ∷ 10 ∷ 0 ∷ rest) 1 (length v + 2 - 1) 0 (omega arith)

  at_return : get_or mem (length v + 1 - 1) 0 ≡ 13
  at_return =
      ap (λ m. get_or m (length v + 1 - 1) 0) holds
      ∙ get_or-append v (13 ∷ 10 ∷ 0 ∷ rest) 0 (length v + 1 - 1) 0 (omega arith)

  stripped : strip mem 13 (strip mem 10 (str_len mem)) ≡ length v
  unfolding strip
  stripped = ground (arith, shown, at_line_feed, at_return)

  cut_front : (n : ℕ) → n ≤ length v → take n (set mem (length v) 0) ≡ take n mem
  cut_front n h = take-set_le mem n (length v) 0 h

  text_front : take (length v) mem ≡ v
  text_front = ap (take (length v)) holds ∙ take-append v (13 ∷ 10 ∷ 0 ∷ rest) (length v) refl

  pub starts :
      (byte_isequal (set mem (length v) 0) 4 (literal "SSH-") ≡ true) ↔ (take 4 v ≡ literal "SSH-")
  starts = ((λ e. sym first ∙ known.0 e), (λ e. known.1 (first ∙ e)))
    where
      known :
          (byte_isequal (set mem (length v) 0) 4 (literal "SSH-") ≡ true)
          ↔ (take 4 (set mem (length v) 0) ≡ take 4 (literal "SSH-"))
      known =
          byte_isequal_iff (set mem (length v) 0) (literal "SSH-") 4
            (omega (arith, length-set mem (length v) 0, four, room, size)) (omega arith)

      first : take 4 (set mem (length v) 0) ≡ take 4 v
      first = cut_front 4 four ∙ sym (take-take 4 (length v) mem four) ∙ ap (take 4) text_front

  -- The buffer where the line is accepted.
  abbrev pub accepted : Buf
  accepted = record b {
    mem = purge (set mem (length v) 0) (length v) (b.alloc - length v);
    len = length v;
  }

  pub accepted-contents : contents accepted ≡ v
  accepted-contents =
      ap (take (length v)) (
        purge-splice (set mem (length v) 0) (length v) (b.alloc - length v)
          (omega (arith, length-set mem (length v) 0, room, size)))
      ∙ take-splice_before (set mem (length v) 0) _ (length v)
          (omega (arith, length-set mem (length v) 0, room, size))
      ∙ cut_front (length v) (omega arith)
      ∙ text_front

  pub accept_hello_lem : accept_hello b mem ≡ (
    byte_isequal (set mem (length v) 0) 4 (literal "SSH-"),
    if byte_isequal (set mem (length v) 0) 4 (literal "SSH-")
        then accepted
        else record b { mem = set mem (length v) 0; len = length v },
  )
  unfolding accept_hello
  accept_hello_lem =
      rw (stripped, le→ltb-false (str_len mem) 6 (omega (arith, shown, four)))
        (both (byte_isequal (set mem (length v) 0) 4 (literal "SSH-")))
    where
      both :
          (t : Bool)
          → ◌≡◌ {A = Bool × Buf}
              (if t
                then (true, accepted)
                else (false, record b { mem = set mem (length v) 0; len = length v }))
              (t, if t then accepted else record b { mem = set mem (length v) 0; len = length v })
      both true = refl
      both false = refl
