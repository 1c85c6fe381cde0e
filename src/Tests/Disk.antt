-- ===== src/Tests/Disk.antt =====
-- A world of one file, which stands at an offset: the calls of POSIX succeed at once.
use becomeasystemsengineer.Prelude.{
  ℕ, zero, suc, ◌≤◌, ◌<◌, ◌≡◌, refl, inl, true, [], ◌∷◌, ◌++◌, arith, length, length-append, take,
  drop, take-append-drop, ap, append_assoc, append-nil, ◌∙◌, sym, subst,
}
use becomeasystemsengineer.Prelude.Bytes.{Bytes}
use becomeasystemsengineer.Posix.{Posix, Reply, returns, fails, Stream, ReadsWell, Sink, WritesWell}
use becomeasystemsengineer.Wal.LogFile.{LogFile}
use becomeasystemsengineer.Wal.Appending.{AppendFile}

pub record File : Type 0 where
  pub passed : Bytes
  pub ahead : Bytes

abbrev pub contents : File → Bytes
contents f = f.passed ++ f.ahead

abbrev read_file : ℕ → File → Reply Bytes × File
read_file n f = (
  returns (take n f.ahead),
  record { passed = f.passed ++ take n f.ahead; ahead = drop n f.ahead },
)

abbrev append_file : Bytes → File → Reply ℕ × File
append_file bytes f = (returns (length bytes), record f { ahead = f.ahead ++ bytes })

abbrev cut_file : ℕ → File → Reply (Unit {0}) × File
cut_file n f = (returns tt, record { passed = take n (contents f); ahead = [] })

abbrev pub disk : Posix
disk = record {
  Os = File;
  read = λ fd n f. read_file n f;
  send = λ fd bytes f. append_file bytes f;
  write = λ fd bytes f. append_file bytes f;
  fsync = λ fd f. (returns tt, f);
  ftruncate = λ fd n f. cut_file n f;
  lseek = λ fd f. (returns (length f.passed), f);
  parent_path = λ path. [];
  create_directories = λ path f. (true, f);
  open_append = λ path f. (returns 3, f);
  open_rdwr = λ path f. (returns 4, f);
  close = λ fd f. f;
}

reply_inj {ℓ} : {A : Type ℓ} {a b : A} → returns a ≡ returns b → a ≡ b
reply_inj e = cc

module _ {A : Type 0} {a b : A} {f g : File}
    (e : ◌≡◌ {A = Reply A × File} (returns a, f) (returns b, g)) where
  pub same_reply : a ≡ b
  same_reply = reply_inj (ap (λ (x : Reply A × File). x.0) e)

  pub same_file : f ≡ g
  same_file = ap (λ (x : Reply A × File). x.1) e

pub no_failure :
    {A : Type 0} {a : A} {n : ℕ} {f g : File} {C : Type 0}
    → ◌≡◌ {A = Reply A × File} (returns a, f) (fails n, g)
    → C
no_failure {A} e = let r = ap (λ (x : Reply A × File). x.0) e in cc

pub length-take_le : (n : ℕ) (bs : Bytes) → length (take n bs) ≤ n
length-take_le zero bs = omega arith
length-take_le (suc n) [] = omega arith
length-take_le (suc n) (b ∷ bs) = omega (arith, length-take_le n bs)

pub take-ne : (n : ℕ) (bs : Bytes) → 0 < n → take n bs ≡ [] → bs ≡ []
take-ne zero bs h e = absurd (omega arith)
take-ne (suc n) [] h e = refl
take-ne (suc n) (b ∷ bs) h e = cc

take-whole : (bs : Bytes) → take (length bs) bs ≡ bs
take-whole [] = refl
take-whole (b ∷ bs) = ap (λ (t : Bytes). b ∷ t) (take-whole bs)

abbrev pub disk_stream : (fd : ℕ) → Stream disk fd
disk_stream fd = record {
  unread = λ f. f.ahead;
  signals = λ f. 0;
  read_some = λ n bs s s' h e. (
    sym (take-append-drop n s.ahead)
        ∙ ap (λ (x : Bytes). x ++ drop n s.ahead) (same_reply e)
        ∙ ap (λ (g : File). bs ++ g.ahead) (same_file e),
    subst (λ (x : Bytes). length x ≤ n) (same_reply e) (length-take_le n s.ahead),
    omega arith,
  );
  read_end = λ n s s' h e. take-ne n s.ahead h (same_reply e);
  read_interrupted = λ n s s' e. no_failure e;
}

pub disk-ReadsWell : (fd : ℕ) → ReadsWell disk fd
disk-ReadsWell fd n errno s s' e = no_failure e

appended : (bs : Bytes) (s : File) → s.passed ++ (s.ahead ++ bs) ≡ contents s ++ take (length bs) bs
appended bs s =
    sym (append_assoc s.passed s.ahead bs) ∙ ap (◌++◌ (contents s)) (sym (take-whole bs))

pub taken_some :
    (bs : Bytes) (n : ℕ) (s s' : File)
    → append_file bs s ≡ (returns n, s')
    → (n ≤ length bs) × (contents s' ≡ contents s ++ take n bs) × (0 ≤ 0)
taken_some bs n s s' e = (
  omega (arith, same_reply e),
  ap contents (sym (same_file e))
      ∙ appended bs s
      ∙ ap (λ (k : ℕ). contents s ++ take k bs) (same_reply e),
  omega arith,
)

abbrev pub disk_sink : (fd : ℕ) → Sink disk disk.send fd
disk_sink fd = record {
  taken = contents;
  signals = λ f. 0;
  write_some = taken_some;
  write_failed = λ bs errno s s' e. no_failure e;
  write_interrupted = λ bs s s' e. no_failure e;
}

abbrev pub disk_writes_well : (fd : ℕ) → WritesWell disk disk.send fd
disk_writes_well fd = record {
  write_progress = λ b bs n s s' e. omega (arith, same_reply e);
  write_fails = λ bs errno s s' e. no_failure e;
}

abbrev pub disk_append : (fd : ℕ) → AppendFile disk fd
disk_append fd = record {
  sink = disk_sink fd;
  taken-fsync =
      λ r s s' e. (ap contents (sym (ap (λ (x : Reply (Unit {0}) × File). x.1) e)), omega arith);
  fsync_interrupted = λ s s' e. no_failure e;
  taken-close = λ s. refl;
}

pub content-read_file :
    (n : ℕ) (r : Reply Bytes) (s s' : File) → read_file n s ≡ (r, s') → contents s' ≡ contents s
content-read_file n r s s' e =
    ap contents (sym (ap (λ (x : Reply Bytes × File). x.1) e))
    ∙ append_assoc s.passed (take n s.ahead) (drop n s.ahead)
    ∙ ap (◌++◌ s.passed) (take-append-drop n s.ahead)

abbrev pub disk_log : (fd : ℕ) → LogFile disk fd
disk_log fd = record {
  stream = disk_stream fd;
  content = contents;
  reads_well = disk-ReadsWell fd;
  content-read = content-read_file;
  lseek_lem = λ s.
      (length s.passed, s, refl, sym (length-append s.passed s.ahead), refl, refl, omega arith);
  ftruncate_lem = λ n s. inl (_, refl, append-nil (take n (contents s)), omega arith);
  fsync_lem = λ s. inl (s, refl, refl, omega arith);
}
