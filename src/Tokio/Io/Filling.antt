-- ===== src/Tokio/Io/Filling.antt =====
-- The loops of reads: they go on until the bytes are there, and lose none.
use picobroker.Base.{
  ℕ, ◌≤◌, ◌≡◌, inl, inr, refl, ap, ◌∙◌, sym, subst, arith, List, [], ◌∷◌, ◌++◌, leb, leb→le, le→leb,
  Bool-cases, length, drop, length-append, append_assoc, append-nil,
}
use picobroker.Tokio.Io.{BytesMut, filled, read_until}

-- What the documentation of the buffer type says of its operations.
pub record BytesMutLaws (B : BytesMut) : Type 0 where
  pub extend_lem : (b : B.Buffer) (chunk : List ℕ) → B.bytes (B.extend b chunk) ≡ B.bytes b ++ chunk
  pub advance_lem :
      (b : B.Buffer) (n : ℕ) → n ≤ length (B.bytes b) → B.bytes (B.advance b n) ≡ drop n (B.bytes b)

abbrev pub joined : List (List ℕ) → List ℕ
joined [] = []
joined (chunk ∷ chunks) = chunk ++ joined chunks

-- A read gives bytes as long as the stream goes on.
abbrev pub AllData : List (List ℕ) → Type 0
AllData [] = Unit {0}
AllData ([] ∷ chunks) = ⊥
AllData ((byte ∷ chunk) ∷ chunks) = AllData chunks

-- A list that begins with another, of which the first part is long enough, begins with it there.
pub prefix-append :
    (xs ys front rest : List ℕ)
    → xs ++ ys ≡ front ++ rest
    → length front ≤ length xs
    → (more : List ℕ) × (xs ≡ front ++ more) × (more ++ ys ≡ rest)
prefix-append xs ys [] rest e h = (xs, refl, e)
prefix-append [] ys (y ∷ front) rest e h = absurd (omega arith)
prefix-append (x ∷ xs) ys (y ∷ front) rest e h =
    let (more, a, b) = prefix-append xs ys front rest (ap (drop 1) e) (omega arith) in (more, cc, b)

module _ (B : BytesMut) (laws : BytesMutLaws B) where
  pub record Filled (target : ℕ) (buffer : B.Buffer) (socket : List (List ℕ)) : Type 0 where
    pub buffer' : B.Buffer
    pub socket' : List (List ℕ)
    pub reads : read_until B target buffer socket ≡ filled buffer' socket'
    pub same : B.bytes buffer' ++ joined socket' ≡ B.bytes buffer ++ joined socket
    pub enough : target ≤ length (B.bytes buffer')
    pub grown : length (B.bytes buffer) ≤ length (B.bytes buffer')
    pub data_left : AllData socket'

  pub read_until-Filled :
      (target : ℕ) (buffer : B.Buffer) (socket : List (List ℕ))
      → AllData socket
      → target ≤ length (B.bytes buffer ++ joined socket)
      → Filled target buffer socket
  unfolding read_until
  read_until-Filled target buffer [] d h =
      let l : target ≤ length (B.bytes buffer) =
        omega (arith, h, ap length (append-nil (B.bytes buffer))) in
      record {
        buffer' = buffer;
        socket' = [];
        reads = rw (le→leb target (length (B.bytes buffer)) l) refl;
        same = refl;
        enough = l;
        grown = omega arith;
        data_left = tt;
      }
  read_until-Filled target buffer ([] ∷ socket) d h = absurd d
  read_until-Filled target buffer ((byte ∷ chunk) ∷ socket) d h =
      let b' = B.extend buffer (byte ∷ chunk) in
      let bytes' = laws.extend_lem buffer (byte ∷ chunk) in
      let all : B.bytes b' ++ joined socket ≡ B.bytes buffer ++ joined ((byte ∷ chunk) ∷ socket) =
        ap (λ k. k ++ joined socket) bytes'
        ∙ append_assoc (B.bytes buffer) (byte ∷ chunk) (joined socket) in
      let later =
        read_until-Filled target b' socket d (subst (λ k. target ≤ length k) (sym all) h) in
      elim (Bool-cases (leb target (length (B.bytes buffer)))) [
        | inl now ↦ record {
          buffer' = buffer;
          socket' = (byte ∷ chunk) ∷ socket;
          reads = rw now refl;
          same = refl;
          enough = leb→le _ _ now;
          grown = omega arith;
          data_left = d;
        }
        | inr short ↦ record {
          buffer' = later.buffer';
          socket' = later.socket';
          reads = rw (short, later.reads) refl;
          same = later.same ∙ all;
          enough = later.enough;
          grown =
              omega (
                arith,
                later.grown,
                ap length bytes',
                length-append (B.bytes buffer) (byte ∷ chunk),
              );
          data_left = later.data_left;
        }
      ]
