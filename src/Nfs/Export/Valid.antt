-- ===== src/Nfs/Export/Valid.antt =====
-- What `parse_export` of targetd/nfs.py guarantees of the exports that it returns, and how it
-- reads a host that has no options of its own.
use targetd.Prelude.{
  ℕ, ◌≡◌, refl, sym, Bool, true, false, not, ◌&&◌, ◌==◌, arith, Text, codes, has_code, Option, none,
  some, some-injective, subst, List, [], ◌∷◌, ◌++◌, any, All, member, append_assoc, if◌then◌else◌,
}
use targetd.Prelude.Split.{split, Lacks, split_plain, split-append}
use targetd.Prelude.Dict.{Dict, keys}
use targetd.Utils.Errors.{Result, ok, err, ◌>>=◌}
use targetd.Nfs.Flags.{has_conflict, key_pair}
use targetd.Nfs.Export.{
  Export, init, first_of_text, is_empty, rest_of, parse_opt, parse_host, parse_hosts, parse_export,
  new_export, to_option,
}
use targetd.Nfs.Export.RoundTrip.{init_last, has_code_last, starts_not_paren}

-- What the constructor checks, for an export of `path`.
pub record IsValid (path : Text) (e : Export) : Type 0 where
  pub at_path : e.path ≡ path
  pub consistent : has_conflict e.options ≡ false
  pub valid_keys : any (λ k. not (member k key_pair)) (keys e.key_value_options) ≡ false

new_export-IsValid :
    (host path : Text) (bits : ℕ) (pairs : Option (Dict Text)) (e : Export)
    → new_export host path bits pairs ≡ ok e
    → IsValid path e
unfolding new_export
new_export-IsValid host path bits none e h = ground arith
new_export-IsValid host path bits (some kp) e h = ground arith

-- What is said of the exports of a result, which may be an exception.
abbrev Each : Text → Result (List Export) → Type 0
Each path (ok es) = All (IsValid path) es
Each path (err x) = Unit

module _ (path : Text) where
  Each-bind :
      {A : Type 0} (m : Result A) (f : A → Result (List Export))
      → ((a : A) → m ≡ ok a → Each path (f a))
      → Each path (m >>= f)
  Each-bind (ok a) f h = h a refl
  Each-bind (err x) f h = tt

  Each-if :
      (b : Bool) (x y : Result (List Export))
      → Each path x
      → Each path y
      → Each path (if b then x else y)
  Each-if true x y h k = h
  Each-if false x y h k = k

  Each-cons :
      (e : Export) (r : Result (List Export))
      → IsValid path e
      → Each path r
      → Each path (r >>= λ es. ok (e ∷ es))
  Each-cons e (ok es) v h = (v, h)
  Each-cons e (err x) v h = tt

  parse_hosts-Each : (tokens : List Text) (g o : Text) → Each path (parse_hosts path tokens g o)
  unfolding parse_hosts
  parse_hosts-Each [] g o = tt
  parse_hosts-Each (t ∷ tokens) g o = Each-bind (first_of_text t) _ λ c _.
      Each-if (c == b'-' && is_empty g) _ _ (parse_hosts-Each tokens (rest_of t) o) (
        Each-bind (parse_host t o) _ λ ho _. Each-bind (parse_opt g (some ho.1)) _ λ bp _.
          Each-bind (new_export ho.0 path bp.0 (some bp.1)) _ λ e made.
            Each-cons e _ (new_export-IsValid ho.0 path bp.0 (some bp.1) e made)
              (parse_hosts-Each tokens g ho.1))

  Each-to_option :
      (r : Result (List Export)) (es : List Export)
      → Each path r
      → to_option r ≡ some es
      → All (IsValid path) es
  Each-to_option (ok fs) es h e = subst (All (IsValid path)) (some-injective fs es e) h
  Each-to_option (err x) es h e = cc

-- Whatever the words behind a path, every export that `parse_export` returns for it is one of that
-- path, with options that do not conflict and with no key that NFS does not have.
pub parse_export-IsValid :
    (path : Text) (tokens : List Text) (es : List Export)
    → parse_export (path ∷ tokens) ≡ some es
    → All (IsValid path) es
unfolding parse_export
parse_export-IsValid path [] es h =
    Each-to_option path (new_export (codes "*") path 0 none >>= λ e. ok (e ∷ [])) es
      (Each-bind path (new_export (codes "*") path 0 none) (λ e. ok (e ∷ []))
        λ e made. (new_export-IsValid (codes "*") path 0 none e made, tt))
      h
parse_export-IsValid path (t ∷ tokens) es h =
    Each-to_option path (parse_hosts path (t ∷ tokens) [] []) es
      (parse_hosts-Each path (t ∷ tokens) [] []) h

-- A host with a group of options.
abbrev pub with_group : Text → Text → Text
with_group host options = host ++ (b'(' ∷ (options ++ (b')' ∷ [])))

with_group-body : (host o : Text) → with_group host o ≡ (host ++ b'(' ∷ o) ++ b')' ∷ []
with_group-body host o = sym (append_assoc host (b'(' ∷ o) (b')' ∷ []))

has_code-with_group : (host o : Text) → has_code b')' (with_group host o) ≡ true
has_code-with_group host o = rw with_group-body (has_code_last (host ++ b'(' ∷ o) b')')

init-with_group : (host o : Text) → init (with_group host o) ≡ host ++ b'(' ∷ o
init-with_group host o = rw with_group-body (init_last (host ++ b'(' ∷ o) b')')

split-with_group :
    (host o : Text) → Lacks b'(' host → Lacks b'(' o → split b'(' (host ++ b'(' ∷ o) ≡ host ∷ o ∷ []
split-with_group host o h k = rw (split-append b'(' host o h, split_plain b'(' o k)

parse_host-with_group :
    (c : ℕ) (r o o' : Text)
    → Lacks b'(' (c ∷ r)
    → Lacks b'(' o
    → parse_host (with_group (c ∷ r) o) o' ≡ ok (c ∷ r, o)
unfolding parse_host
parse_host-with_group c r o o' h k = rw (
  has_code-with_group (c ∷ r) o,
  starts_not_paren c r h,
  init-with_group (c ∷ r) o,
  split-with_group (c ∷ r) o h k,
)

parse_host_plain : (t o : Text) → Lacks b')' t → parse_host t o ≡ ok (t, o)
unfolding parse_host
parse_host_plain t o h = rw h

-- Of two hosts next to each other that begin with no `-` and have no parenthesis in their names, the
-- first with a group of options and the second without, the second is read as if it had the group
-- of the first. This is so whatever global options came before and whatever tokens follow.
pub parse_hosts_inherit :
    (path globals : Text) (c d : ℕ) (h k o g : Text) (tokens : List Text)
    → Lacks b'(' (c ∷ h)
    → Lacks b'(' (d ∷ k)
    → Lacks b')' (d ∷ k)
    → Lacks b'(' o
    → (c == b'-') ≡ false
    → (d == b'-') ≡ false
    → parse_hosts path (with_group (c ∷ h) o ∷ (d ∷ k) ∷ tokens) globals g
      ≡ parse_hosts path (with_group (c ∷ h) o ∷ with_group (d ∷ k) o ∷ tokens) globals g
unfolding parse_hosts
parse_hosts_inherit path globals c d h k o g tokens hp kp kq op cd dd = rw (
  cd,
  dd,
  parse_host-with_group c h o g hp op,
  parse_host-with_group d k o o kp op,
  parse_host_plain (d ∷ k) o kq,
)
