-- ===== src/Print/File.antt =====
-- The output streams of src/rastertopantum.c: fwrite as the filter sees it, and the bookkeeping of
-- a sequence of writes that stops at the first short one. fwrite belongs to the C library, so how
-- many bytes it takes is the parameter `accepts`, a function of the stream and the bytes.
use pantum_open.Base.{
  ℕ, ◌≡◌, ◌≢◌, refl, sym, ap, ◌∙◌, List, [], ◌++◌, Bool, true, false, arith, length, take, ◌==◌,
  if◌then◌else◌, append-nil, append_assoc, take-all, min, take-min-append, take-add-append, ◌+◌,
  eq→==, ==→eq,
}

-- A stream: which one it is, and the bytes that went into it so far.
pub record File : Type 0 where
  pub id : ℕ
  pub bytes : List ℕ

abbrev pub Accepts : Type 0
Accepts = File → List ℕ → ℕ

-- A piece of code that writes to one stream and returns whether it succeeded (0 against -1).
abbrev pub Writer : Type 0
Writer = File → Bool × File

abbrev pub done : Writer
done f = (true, f)

-- `if (a < 0) return -1; b`
abbrev pub then_write : Writer → Writer → Writer
then_write a b f = let (good, f') = a f in if good then b f' else (false, f')

module _ (accepts : Accepts) where
  -- `fwrite (xs, 1, n, fp) == n`
  unfoldable pub fwrite : List ℕ → Writer
  fwrite xs f = (accepts f xs == length xs, record f { bytes = f.bytes ++ take (accepts f xs) xs })

  -- What a writer that means to write `xs` has done: all of it where it reports success, a part of
  -- it in any case, and where it reports failure some fwrite was short.
  pub record Wrote (xs : List ℕ) (f : File) (r : Bool × File) : Type 0 where
    pub complete : r.0 ≡ true → r.1.bytes ≡ f.bytes ++ xs
    pub partial : (n : ℕ) × (r.1.bytes ≡ f.bytes ++ take n xs)
    pub same : r.1.id ≡ f.id
    pub short : r.0 ≡ false → (g : File) × (ys : List ℕ) × (accepts g ys ≢ length ys)

  abbrev pub Writes : Writer → List ℕ → Type 0
  Writes w xs = (f : File) → Wrote xs f (w f)

  pub Writes-done : Writes done []
  Writes-done f = record {
    complete = λ h. sym (append-nil f.bytes);
    partial = (0, sym (append-nil f.bytes));
    same = refl;
    short = λ h. cc;
  }

  pub Writes-fwrite : (xs : List ℕ) → Writes (fwrite xs) xs
  unfolding fwrite
  Writes-fwrite xs f = record {
    complete = λ h.
        ap (λ ys. f.bytes ++ ys)
          (take-all (accepts f xs) xs (omega (arith, ==→eq (accepts f xs) (length xs) h)));
    partial = (accepts f xs, refl);
    same = refl;
    short = λ h. (f, xs, λ e. cc (eq→== (accepts f xs) (length xs) e));
  }

  Wrote-first :
      (xs ys : List ℕ) (f f' : File) → Wrote xs f (false, f') → Wrote (xs ++ ys) f (false, f')
  Wrote-first xs ys f f' w = record {
    complete = λ h. cc;
    partial = (
      min w.partial.0 (length xs),
      w.partial.1 ∙ ap (λ zs. f.bytes ++ zs) (take-min-append w.partial.0 xs ys),
    );
    same = w.same;
    short = w.short;
  }

  Wrote-both :
      (xs ys : List ℕ) (f f' : File) (r : Bool × File)
      → Wrote xs f (true, f')
      → Wrote ys f' r
      → Wrote (xs ++ ys) f r
  Wrote-both xs ys f f' r w v = record {
    complete =
        λ h. v.complete h ∙ ap (λ zs. zs ++ ys) (w.complete refl) ∙ append_assoc f.bytes xs ys;
    partial = (
      length xs + v.partial.0,
      v.partial.1
          ∙ ap (λ zs. zs ++ take v.partial.0 ys) (w.complete refl)
          ∙ append_assoc f.bytes xs (take v.partial.0 ys)
          ∙ ap (λ zs. f.bytes ++ zs) (take-add-append v.partial.0 xs ys),
    );
    same = v.same ∙ w.same;
    short = v.short;
  }

  Writes-then_lem :
      (xs ys : List ℕ) (b : Writer) (f : File) (r : Bool × File)
      → Wrote xs f r
      → Writes b ys
      → Wrote (xs ++ ys) f (if r.0 then b r.1 else (false, r.1))
  Writes-then_lem xs ys b f (true, f') w v = Wrote-both xs ys f f' (b f') w (v f')
  Writes-then_lem xs ys b f (false, f') w v = Wrote-first xs ys f f' w

  pub Writes-then :
      {a b : Writer} {xs ys : List ℕ}
      → Writes a xs
      → Writes b ys
      → Writes (then_write a b) (xs ++ ys)
  Writes-then {a} {b} {xs} {ys} wa wb f = Writes-then_lem xs ys b f (a f) (wa f) wb
