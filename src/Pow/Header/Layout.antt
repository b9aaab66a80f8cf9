-- ===== src/Pow/Header/Layout.antt =====
-- src/pow.rs: the bytes of a header can be read back, and so stand for one content only.
use kasop.Common.{
  append_assoc, ℕ, zero, suc, ◌*◌, ◌^◌, ◌≤◌, ◌<◌, true, List, [], ◌∷◌, ◌++◌, Option, none, some,
  length, take, drop, leb, if◌then◌else◌, ◌≡◌, refl, ap, subst, ◌∙◌, arith,
}
use kasop.Target.{word_from_le_bytes, word_to_le_bytes}
use kasop.Target.Bytes.{word_from-word_to, length-word_to_le_bytes}

abbrev pub Reader : Type 0 → Type 0
Reader A = List ℕ → Option (A × List ℕ)

module _ {A B : Type 0} where
  abbrev pub go_on : Option (A × List ℕ) → (A → Reader B) → Option (B × List ℕ)
  go_on none next = none
  go_on (some (a, rest)) next = next a rest

  pub then_read : Reader A → (A → Reader B) → Reader B
  then_read read next bytes = go_on (read bytes) next

pub give : {A : Type 0} → A → Reader A
give a bytes = some (a, bytes)

pub read_bytes : ℕ → Reader (List ℕ)
read_bytes n bytes = if leb n (length bytes) then some (take n bytes, drop n bytes) else none

abbrev pub read_word : ℕ → Reader ℕ
read_word n = then_read (read_bytes n) (λ bytes. give (word_from_le_bytes bytes))

-- As many times as is said.
pub read_many : {A : Type 0} → Reader A → ℕ → Reader (List A)
read_many read zero = give []
read_many read (suc n) = then_read read (λ x. then_read (read_many read n) (λ xs. give (x ∷ xs)))

abbrev pub read_level : Reader (List (List ℕ))
read_level = then_read (read_word 8) (read_many (read_bytes 32))

-- What a header says, with its texts decoded.
pub record Content : Type 0 where
  pub version : ℕ
  pub parents : List (List (List ℕ))
  pub merkle_root : List ℕ
  pub accepted_root : List ℕ
  pub utxo : List ℕ
  pub timestamp : ℕ
  pub bits : ℕ
  pub nonce : ℕ
  pub daa_score : ℕ
  pub blue_score : ℕ
  pub blue_work : List ℕ
  pub pruning_point : List ℕ

unfoldable pub read_header : Reader Content
read_header = then_read (read_word 2) (λ version. then_read (read_word 8) (λ levels.
    then_read (read_many read_level levels) (λ parents. then_read (read_bytes 32) (λ merkle_root.
      then_read (read_bytes 32) (λ accepted_root. then_read (read_bytes 32) (λ utxo.
        then_read (read_word 8) (λ timestamp. then_read (read_word 4) (λ bits.
          then_read (read_word 8) (λ nonce. then_read (read_word 8) (λ daa_score.
            then_read (read_word 8) (λ blue_score. then_read (read_word 8) (λ n.
              then_read (read_bytes n) (λ blue_work. then_read (read_bytes 32) (λ pruning_point.
                give (record {
                  version = version;
                  parents = parents;
                  merkle_root = merkle_root;
                  accepted_root = accepted_root;
                  utxo = utxo;
                  timestamp = timestamp;
                  bits = bits;
                  nonce = nonce;
                  daa_score = daa_score;
                  blue_score = blue_score;
                  blue_work = blue_work;
                  pruning_point = pruning_point;
                })))))))))))))))

-- Whatever follows them, the bytes are read as the value.
pub record Reads {A : Type 0} (read : Reader A) (bytes : List ℕ) (a : A) : Type 0 where
  pub reads : (rest : List ℕ) → read (bytes ++ rest) ≡ some (a, rest)

module _ {A B : Type 0} {read : Reader A} {xs ys : List ℕ} {a : A} {b : B} where
  pub Reads-then :
      (next : A → Reader B)
      → Reads read xs a
      → Reads (next a) ys b
      → Reads (then_read read next) (xs ++ ys) b
  unfolding then_read
  Reads-then next r s = record {
    reads = λ rest.
        ap (λ bytes. then_read read next bytes) (append_assoc xs ys rest)
        ∙ ap (λ o. go_on o next) (r.reads (ys ++ rest))
        ∙ s.reads rest;
  }

module _ {A B : Type 0} {read : Reader A} {xs : List ℕ} {a : A} where
  pub Reads-map : (f : A → B) → Reads read xs a → Reads (then_read read (λ x. give (f x))) xs (f a)
  unfolding then_read give
  Reads-map f r = record {
    reads = λ rest. ap (λ o. go_on o (λ x bytes. some (f x, bytes))) (r.reads rest);
  }

take-append : (xs ys : List ℕ) → take (length xs) (xs ++ ys) ≡ xs
take-append [] ys = refl
take-append (x ∷ xs) ys = ap (λ l. x ∷ l) (take-append xs ys)

drop-append : (xs ys : List ℕ) → drop (length xs) (xs ++ ys) ≡ ys
drop-append [] ys = refl
drop-append (x ∷ xs) ys = drop-append xs ys

length-append-le : (xs ys : List ℕ) → length xs ≤ length (xs ++ ys)
length-append-le [] ys = omega arith
length-append-le (x ∷ xs) ys = omega (arith, length-append-le xs ys)

pub Reads-bytes : (n : ℕ) (bytes : List ℕ) → length bytes ≡ n → Reads (read_bytes n) bytes bytes
unfolding read_bytes
Reads-bytes n bytes e =
    subst (λ k. Reads (read_bytes k) bytes bytes) e
      (record {
        reads = λ rest.
            let fits : leb (length bytes) (length (bytes ++ rest)) ≡ true =
              ground (arith, length-append-le bytes rest) in
            rw (fits, take-append bytes rest, drop-append bytes rest) refl;
      })

pub Reads-word : (n x : ℕ) → x < 2 ^ (8 * n) → Reads (read_word n) (word_to_le_bytes n x) x
Reads-word n x h =
    subst (λ w. Reads (read_word n) (word_to_le_bytes n x) w) (word_from-word_to n x h)
      (Reads-map word_from_le_bytes
        (Reads-bytes n (word_to_le_bytes n x) (length-word_to_le_bytes n x)))

module _ {A : Type 0} (read : Reader A) where
  pub Reads-none : Reads (read_many read 0) [] []
  unfolding read_many give
  Reads-none = record { reads = λ rest. refl }

  pub Reads-more :
      (n : ℕ) {xs ys : List ℕ} {a : A} {rest : List A}
      → Reads read xs a
      → Reads (read_many read n) ys rest
      → Reads (read_many read (suc n)) (xs ++ ys) (a ∷ rest)
  unfolding read_many
  Reads-more n {a = a} r s = Reads-then _ r (Reads-map (λ l. a ∷ l) s)
