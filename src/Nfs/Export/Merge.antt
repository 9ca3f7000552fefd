-- ===== src/Nfs/Export/Merge.antt =====
-- What `parse_opt` of targetd/nfs.py returns: consistent options, and specific ones first.
use targetd.Prelude.{ℕ, ◌≡◌, refl, false, not, ◌&&◌, ◌||◌, arith, Text, some}
use targetd.Prelude.Bits.{bit}
use targetd.Prelude.Dict.{Dict, update}
use targetd.Utils.Errors.{Result, ok, err, ◌>>=◌}
use targetd.Nfs.Flags.{has_conflict}
use targetd.Nfs.Export.{cull, parse_opt, parse_option_string, validate_options}
use targetd.Nfs.Export.Overrides.{merged, bit-cull-Free, bit-cull}
use targetd.Nfs.Export.Conflicts.{both, Free, has_conflict-Free, Free-has_conflict}

both-cull :
    (i j g s : ℕ)
    → bit i (cull g s) ≡ (bit i s || (bit i g && not (bit j s)))
    → bit j (cull g s) ≡ (bit j s || (bit j g && not (bit i s)))
    → both g i j ≡ false
    → both s i j ≡ false
    → both (cull g s) i j ≡ false
both-cull i j g s p q fg fs = ground arith

Free-cull : (g s : ℕ) → Free g → Free s → Free (cull g s)
Free-cull g s fg fs = (
  both-cull 1 2 g s (bit-cull-Free 1 g s fs) (bit-cull-Free 2 g s fs) fg.0 fs.0,
  (
    both-cull 15 0 g s (bit-cull-Free 15 g s fs) (bit-cull-Free 0 g s fs) fg.1.0 fs.1.0,
    (
      both-cull 3 4 g s (bit-cull-Free 3 g s fs) (bit-cull-Free 4 g s fs) fg.1.1.0 fs.1.1.0,
      (
        both-cull 14 6 g s (bit-cull-Free 14 g s fs) (bit-cull-Free 6 g s fs) fg.1.1.1.0 fs.1.1.1.0,
        (
          both-cull 13 5 g s (bit-cull-Free 13 g s fs) (bit-cull-Free 5 g s fs) fg.1.1.1.1.0
              fs.1.1.1.1.0,
          (
            both-cull 10 11 g s (bit-cull-Free 10 g s fs) (bit-cull-Free 11 g s fs) fg.1.1.1.1.1.0
                fs.1.1.1.1.1.0,
            tt,
          ),
        ),
      ),
    ),
  ),
)

-- Merging two sets of options without a conflict gives options without a conflict.
pub has_conflict-cull :
    (g s : ℕ) → has_conflict g ≡ false → has_conflict s ≡ false → has_conflict (cull g s) ≡ false
has_conflict-cull g s hg hs =
    Free-has_conflict (cull g s) (Free-cull g s (has_conflict-Free g hg) (has_conflict-Free s hs))

pub record Merges (global_options specific_options : Text) (bits : ℕ) (pairs : Dict Text)
    : Type 0 where
  pub gbit : ℕ
  pub gpairs : Dict Text
  pub sbit : ℕ
  pub spairs : Dict Text
  pub global_read : parse_option_string global_options ≡ ok (gbit, gpairs)
  pub specific_read : parse_option_string specific_options ≡ ok (sbit, spairs)
  pub consistent : has_conflict bits ≡ false
  pub digits : (k : ℕ) → bit k bits ≡ merged gbit sbit k
  pub updated : pairs ≡ update gpairs spairs

-- The rest of `parse_opt` behind its two parses.
abbrev finish : ℕ × Dict Text → ℕ × Dict Text → Result (ℕ × Dict Text)
finish (gbit, gpairs) (sbit, spairs) = validate_options gbit >>= λ _.
    validate_options sbit >>= λ _. ok (cull gbit sbit, update gpairs spairs)

finish_lem :
    (gb sb bits : ℕ) (gp sp pairs : Dict Text)
    → finish (gb, gp) (sb, sp) ≡ ok (bits, pairs)
    → (has_conflict gb ≡ false)
      × (has_conflict sb ≡ false)
      × (bits ≡ cull gb sb)
      × (pairs ≡ update gp sp)
unfolding validate_options
finish_lem gb sb bits gp sp pairs h = ground arith

Merges-finish :
    (g s : Text) (bits : ℕ) (pairs : Dict Text) (rg rs : Result (ℕ × Dict Text))
    → parse_option_string g ≡ rg
    → parse_option_string s ≡ rs
    → (rg >>= λ a. rs >>= λ b. finish a b) ≡ ok (bits, pairs)
    → Merges g s bits pairs
Merges-finish g s bits pairs (err e) rs eg es h = cc
Merges-finish g s bits pairs (ok a) (err e) eg es h = cc
Merges-finish g s bits pairs (ok (gb, gp)) (ok (sb, sp)) eg es h =
    let f = finish_lem gb sb bits gp sp pairs h in
    record {
      gbit = gb;
      gpairs = gp;
      sbit = sb;
      spairs = sp;
      global_read = eg;
      specific_read = es;
      consistent = rw f.2 (has_conflict-cull gb sb f.0 f.1);
      digits = λ k. rw f.2 (bit-cull k gb sb f.1);
      updated = f.3;
    }

-- When `parse_opt` accepts a text of global and a text of specific options, its result has no
-- conflicting options by `_validate_options`, holds an option exactly if the specific text sets it, or
-- the global text sets it and the specific text does not set its opposite, and its key-value pairs
-- are the global ones updated by the specific ones. The opposites are those that the code knows,
-- which are not all of exports(5): `all_squash` and `no_all_squash` are merged as unrelated.
pub parse_opt-Merges :
    (global_options specific_options : Text) (bits : ℕ) (pairs : Dict Text)
    → parse_opt global_options (some specific_options) ≡ ok (bits, pairs)
    → Merges global_options specific_options bits pairs
unfolding parse_opt
parse_opt-Merges g s bits pairs h =
    Merges-finish g s bits pairs (parse_option_string g) (parse_option_string s) refl refl h
