-- ===== src/Wire.antt =====
-- How the program writes its data to a stream and reads it: `serialize` and `unserialize`. The stream
-- is salticidae's DataStream, a sequence of bytes, and a parameter. What is written is put in front
-- of what follows it in the stream; a reader returns what it read with what is left, or `none` for
-- the exceptions of the stream and of the parsers of the curve library.
pub mod Cert
pub mod Entity
pub mod Message
pub mod Reading
pub mod Replies
use archipelago_hotstuff.Base.{
  ℕ, ◌^◌, ◌<◌, ◌≡◌, refl, ◌∙◌, Bool, Option, none, some, List, [], ◌∷◌, ◌++◌, length,
}

abbrev pub Bytes : Type 0
Bytes = List ℕ

abbrev pub Reader : Type 0 → Type 0
Reader A = Bytes → Option (A × Bytes)

infixl 5 ◌>>=◌
unfoldable pub ◌>>=◌ : {A B : Type 0} → Reader A → (A → Reader B) → Reader B
(m >>= f) bs = elim (m bs) [ none ↦ none | some r ↦ f r.0 r.1 ]

abbrev pub pure : {A : Type 0} → A → Reader A
pure a bs = some (a, bs)

-- What the library writes and reads. An integer takes `width` bytes; `get_data` is
-- `get_data_inplace`.
pub record Wire : Type 0 where
  pub put_int : (width : ℕ) → ℕ → Bytes → Bytes
  pub get_int : (width : ℕ) → Reader ℕ
  pub put_sig : ℕ → Bytes → Bytes
  pub get_sig : Reader ℕ
  pub put_bits : List Bool → Bytes → Bytes
  pub get_bits : Reader (List Bool)
  pub put_data : Bytes → Bytes → Bytes
  pub get_data : (size : ℕ) → Reader Bytes

-- What the code relies on: what was written is read again, an integer if it fits its width.
pub record ReadsBack (w : Wire) : Type 0 where
  pub int :
      (width n : ℕ) (rest : Bytes)
      → n < 256 ^ width
      → w.get_int width (w.put_int width n rest) ≡ some (n, rest)
  pub sig : (sig : ℕ) (rest : Bytes) → w.get_sig (w.put_sig sig rest) ≡ some (sig, rest)
  pub bits :
      (bits : List Bool) (rest : Bytes) → w.get_bits (w.put_bits bits rest) ≡ some (bits, rest)
  pub nothing : (rest : Bytes) → w.put_data [] rest ≡ rest
  pub raw : (bs rest : Bytes) → w.get_data (length bs) (w.put_data bs rest) ≡ some (bs, rest)

-- One read after another.
pub then_read :
    {A B : Type 0} (m : Reader A) (f : A → Reader B) {bs rest : Bytes} {a : A}
    {r : Option (B × Bytes)}
    → m bs ≡ some (a, rest)
    → f a rest ≡ r
    → (m >>= f) bs ≡ r
unfolding ◌>>=◌
then_read m f e k = rw (e, ◌>>=◌) k

bound_read :
    {A B : Type 0} (o : Option (A × Bytes)) (f : A → Reader B) {x : B × Bytes}
    → (elim o as (λ _. Option (B × Bytes)) [ none ↦ none | some r ↦ f r.0 r.1 ]) ≡ some x
    → (a : A) × (rest : Bytes) × (o ≡ some (a, rest)) × (f a rest ≡ some x)
bound_read none f e = cc
bound_read (some (a, rest)) f e = (a, rest, refl, e)

-- Two reads that succeed, one by one.
pub read_then :
    {A B : Type 0} (m : Reader A) (f : A → Reader B) {bs : Bytes} {x : B × Bytes}
    → (m >>= f) bs ≡ some x
    → (a : A) × (rest : Bytes) × (m bs ≡ some (a, rest)) × (f a rest ≡ some x)
unfolding ◌>>=◌
read_then m f {bs} e = bound_read (m bs) f e
