-- ===== src/Ion/Uses/Scan.antt =====
-- The scan for the place of a use (src/ion/mod.rs, `insert_use_into_liverange_and_update_stats`).
use regalloc2_orig.Prelude.{
  ℕ, zero, suc, ◌≡◌, ◌<◌, true, List, [], ◌∷◌, ◌++◌, Option, none, some, get_elem?, refl, ap, ◌>>=◌,
  Bool-cases, inl, inr, arith, length,
}
use regalloc2_orig.Index
use regalloc2_orig.ProgPoint
use regalloc2_orig.ProgPoint.{ProgPoint}
use regalloc2_orig.ProgPoint.Order.{position, position-lt}
use regalloc2_orig.Operand.{Operand}
use regalloc2_orig.Ion.Env.{Use, at, at-some}
use regalloc2_orig.Ion.Uses.{find_use}
use regalloc2_orig.Ion.Links.{last_or, Linked, HeadFrom, AllUpTo}

-- The place of a use in the program.
unfoldable pub use_place : List Use → ℕ → ℕ
use_place uses j = elim (at uses j) [ none ↦ 0 | some d ↦ position d.pos ]

pub use_place-at :
    (uses : List Use) (j : ℕ) (d : Use) → at uses j ≡ some d → use_place uses j ≡ position d.pos
unfolding use_place
use_place-at uses j d h = rw (use_place, h) refl

-- The operand of a use.
unfoldable pub use_operand : List Use → ℕ → Option Operand
use_operand uses j = do d ← at uses j; some d.operand

pub use_operand-at :
    (uses : List Use) (j : ℕ) (d : Use) → at uses j ≡ some d → use_operand uses j ≡ some d.operand
unfolding use_operand
use_operand-at uses j d h = rw (use_operand, h, ◌>>=◌)

abbrev pub use_link : Use → ℕ
use_link d = d.next_use

-- The scan parts the list: the uses up to a position, and from the first one past it on.
pub record Parted (uses : List Use) (pos : ProgPoint) (prev : ℕ) (is : List ℕ) (found : ℕ × ℕ)
    : Type 0 where
  pub upto : List ℕ
  pub past : List ℕ
  pub split : is ≡ upto ++ past
  pub last : found.0 ≡ last_or prev upto
  pub linked : Linked use_link uses (found.1) past
  pub low : AllUpTo (use_place uses) (position pos) upto
  pub high : HeadFrom (use_place uses) (position pos) past

pub find_use_lem :
    (fuel : ℕ) (uses : List Use) (pos : ProgPoint) (prev iter : ℕ) (is : List ℕ)
    → Linked use_link uses iter is
    → length is < fuel
    → (found : ℕ × ℕ) × (find_use fuel uses pos prev iter ≡ some found)
      × Parted uses pos prev is found
unfolding find_use
find_use_lem zero uses pos prev iter is l h = absurd (omega arith)
find_use_lem (suc fuel) uses pos prev iter [] l h = (
  (prev, iter),
  rw (find_use, l),
  record { upto = []; past = []; split = refl; last = refl; linked = l; low = tt; high = tt },
)
find_use_lem (suc fuel) uses pos prev iter (i ∷ is) (e, d, g, l) h =
    let (v, b) = at-some uses i d g in
    let v' : Index.is_valid iter ≡ true = rw e v in
    let b' : get_elem? uses iter ≡ some d = rw e b in
    elim (Bool-cases (ProgPoint.lt pos d.pos)) [
      | inl past ↦ (
        (prev, iter),
        rw (find_use, v', b', ◌>>=◌, past),
        record {
          upto = [];
          past = i ∷ is;
          split = refl;
          last = refl;
          linked = (e, d, g, l);
          low = tt;
          high = rw (use_place-at uses i d g) (ground (arith, position-lt pos d.pos));
        },
      )
      | inr upto ↦
          let (found, f, p) = find_use_lem fuel uses pos i d.next_use is l (omega arith) in
          (
            found,
            rw (find_use, v', b', ◌>>=◌, upto, e) f,
            record {
              upto = i ∷ p.upto;
              past = p.past;
              split = ap (λ r. i ∷ r) p.split;
              last = p.last;
              linked = p.linked;
              low = (rw (use_place-at uses i d g) (ground (arith, position-lt pos d.pos)), p.low);
              high = p.high;
            },
          )
    ]
