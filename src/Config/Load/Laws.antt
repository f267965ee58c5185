-- ===== src/Config/Load/Laws.antt =====
-- What a configuration that was loaded is known to satisfy, and where a parse error is reported.
use Prim.Native.Nat.{bit_and}
use cirrusync.Prelude.{
  ==_iff, ℕ, suc, ◌≤◌, ◌≡◌, refl, sym, ap, ◌∙◌, ◌⊎◌, inl, inr, true, false, not, Option, some, List,
  [], ◌∷◌, ◌++◌, arith, min, ◌==◌, length, length-append, take, all, all-append, append_assoc,
  append_nil, Bool-cases, ok, Result-cases,
}
use cirrusync.Prelude.Strings.{Text, len, utf8}
use cirrusync.Config.{Config, max_config_bytes}
use cirrusync.Config.Validate.{ParseUrl, validate}
use cirrusync.Config.Validate.Whole.{IsConfig, validate-ok_iff}
use cirrusync.Config.Load.{
  Metadata, FileCalls, check_config_file, open_config_file, ParseToml, parse, load, canonicalize,
  count_newlines, since_newline, line_column,
}

-- A file whose contents only root or the running user can have written.
pub record IsTrusted (user : ℕ) (opened named : Metadata) : Type 0 where
  pub regular : opened.is_file ≡ true
  pub no_link : named.is_symlink ≡ false
  pub same_device : named.dev ≡ opened.dev
  pub same_file : named.ino ≡ opened.ino
  pub not_shared : bit_and (bit_and opened.mode 0o7777) 0o022 ≡ 0
  pub owner : (opened.uid ≡ 0) ⊎ (opened.uid ≡ user)
  pub small : opened.size ≤ max_config_bytes

check_config_file-ok :
    (path : Text) (user : ℕ) (opened named : Metadata)
    → opened.is_file ≡ true
    → check_config_file path user opened named ≡ ok tt
    → IsTrusted user opened named
unfolding check_config_file
check_config_file-ok path user opened named f h = ground arith

-- The descriptor and the name both answered, and the answers are those of a trusted file.
pub record Opened (calls : FileCalls) : Type 0 where
  pub descriptor : Metadata
  pub name : Metadata
  pub descriptor_answer : calls.metadata ≡ ok descriptor
  pub name_answer : calls.named ≡ ok name
  pub trusted : IsTrusted calls.effective_user descriptor name

open_config_file-ok :
    (path : Text) (calls : FileCalls) → open_config_file path calls ≡ ok tt → Opened calls
unfolding open_config_file
open_config_file-ok path calls h = elim (Result-cases calls.metadata) [
  | inr (e, m) ↦ absurd (ground arith)
  | inl (opened, m) ↦ elim (Result-cases calls.named) [
    | inr (e, n) ↦ absurd (ground arith)
    | inl (named, n) ↦ record {
      descriptor = opened;
      name = named;
      descriptor_answer = m;
      name_answer = n;
      trusted =
          check_config_file-ok path calls.effective_user opened named (ground arith) (ground arith);
    }
  ]
]

module _ (toml : ParseToml) (parse_url : ParseUrl) where
  pub parse-IsConfig :
      (contents : Text) (path : Option Text) (config : Config)
      → parse toml parse_url contents path ≡ ok config
      → IsConfig parse_url config × (len contents ≤ max_config_bytes)
  unfolding parse
  parse-IsConfig contents path config h = elim (Result-cases (toml contents)) [
    | inr (e, q) ↦ absurd (ground arith)
    | inl (c, q) ↦ elim (Result-cases (validate parse_url (canonicalize c))) [
      | inr (e, v) ↦ absurd (ground arith)
      | inl (u, v) ↦
          let same : canonicalize c ≡ config = ground arith in
          (rw (← same) ((validate-ok_iff parse_url (canonicalize c)).0 v), ground arith)
    ]
  ]

  -- A configuration that `load` returns satisfies every invariant that `validate` checks, and came
  -- from a regular file of bounded size, owned by root or the effective user, not writable by group
  -- or others, and still the one that its path names.
  pub load-trusted :
      (path : Text) (calls : FileCalls) (config : Config)
      → load toml parse_url path calls ≡ ok config
      → IsConfig parse_url config × Opened calls
  unfolding load
  load-trusted path calls config h = elim (Result-cases calls.contents) [
    | inr (e, q) ↦ absurd (ground arith)
    | inl (contents, q) ↦ (
      (parse-IsConfig contents (some path) config (ground arith)).0,
      open_config_file-ok path calls (ground arith),
    )
  ]

-- `line` and `column` say where the text after `before ++ tail` starts: `tail` is the part of its
-- line before it, so what stands before `tail` is nothing or ends in a newline.
pub record IsPosition (prefix : List ℕ) (line column : ℕ) : Type 0 where
  pub before : List ℕ
  pub tail : List ℕ
  pub split : prefix ≡ before ++ tail
  pub from_line_start : (before ≡ []) ⊎ ((init : List ℕ) × (before ≡ init ++ (0xa ∷ [])))
  pub one_line : all (λ b. not (b == 0xa)) tail ≡ true
  pub lines_before : line ≡ suc (count_newlines before)
  pub column_after : column ≡ suc (length tail)

count_newlines-append_none :
    (seen bs : List ℕ)
    → all (λ b. not (b == 0xa)) seen ≡ true
    → count_newlines (seen ++ bs) ≡ count_newlines bs
unfolding count_newlines
count_newlines-append_none [] bs h = refl
count_newlines-append_none (b ∷ seen) bs h = ground (arith, count_newlines-append_none seen bs)

newline_behind :
    (seen : List ℕ) (b : ℕ) (before : List ℕ)
    → b ≡ 0xa
    → (before ≡ []) ⊎ ((init : List ℕ) × (before ≡ init ++ (0xa ∷ [])))
    → (init : List ℕ) × (seen ++ (b ∷ before) ≡ init ++ (0xa ∷ []))
newline_behind seen b before e (inl none) = (seen, rw (e, none) refl)
newline_behind seen b before e (inr (init, ends)) = (
  seen ++ (b ∷ init),
  ap (λ rest. seen ++ (b ∷ rest)) ends ∙ sym (append_assoc seen (b ∷ init) (0xa ∷ [])),
)

-- The same, in a text of which the newline-free part `seen` stands before `bs`.
IsPosition-onto :
    (seen bs : List ℕ)
    → all (λ b. not (b == 0xa)) seen ≡ true
    → IsPosition (seen ++ bs) (suc (count_newlines bs)) (suc (since_newline (length seen) bs))
unfolding count_newlines since_newline
IsPosition-onto seen [] h = record {
  before = [];
  tail = seen;
  split = append_nil seen;
  from_line_start = inl refl;
  one_line = h;
  lines_before = refl;
  column_after = refl;
}
IsPosition-onto seen (b ∷ bs) h = elim (Bool-cases (b == 0xa)) [
  | inl q ↦
      let r = IsPosition-onto [] bs refl in
      record {
        before = seen ++ (b ∷ r.before);
        tail = r.tail;
        split =
            ap (λ rest. seen ++ (b ∷ rest)) r.split ∙ sym (append_assoc seen (b ∷ r.before) r.tail);
        from_line_start =
            inr (newline_behind seen b r.before ((==_iff b 0xa).0 q) r.from_line_start);
        one_line = r.one_line;
        lines_before =
            rw (q, count_newlines, count_newlines-append_none seen (b ∷ r.before) h)
              (ground (arith, r.lines_before));
        column_after = rw (q, since_newline) r.column_after;
      }
  | inr q ↦
      let r = IsPosition-onto (seen ++ (b ∷ [])) bs (rw all-append (ground arith)) in
      record {
        before = r.before;
        tail = r.tail;
        split = sym (append_assoc seen (b ∷ []) bs) ∙ r.split;
        from_line_start = r.from_line_start;
        one_line = r.one_line;
        lines_before = rw (q, count_newlines) r.lines_before;
        column_after =
            rw (q, since_newline)
              (ap (λ n. suc (since_newline n bs)) (sym (omega (arith, length-append seen (b ∷ []))))
                ∙ r.column_after);
      }
]

-- The reported line and column are those of the byte offset, cut back to the text's length: the line
-- is one more than the newlines before it, and the column one more than the bytes since the last
-- newline or, where there is none, since the start.
pub line_column-IsPosition :
    (contents : Text) (offset : ℕ)
    → let (line, column) = line_column contents offset in
      IsPosition (take (min offset (len contents)) (utf8 contents)) line column
unfolding line_column
line_column-IsPosition contents offset =
    IsPosition-onto [] (take (min offset (len contents)) (utf8 contents)) refl
