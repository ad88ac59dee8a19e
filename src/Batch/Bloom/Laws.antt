-- ===== src/Batch/Bloom/Laws.antt =====
-- The bits that the two operations of the in-process filter set and read.
use quantumbilling.Common.{
  ℕ, ◌≡◌, refl, ◌∙◌, List, [], ◌∷◌, Text, Bool, true, arith, All, Bool-cases, inl, inr,
  if◌then◌else◌,
}
use quantumbilling.Batch.Bloom.{
  Bits, InProcessBloom, hash, position, test, set_bit, rounds, exists_and_add_loop, add_loop,
  exists_and_add, add,
}

-- Every bit of one is a bit of the other.
pub record Covers (b c : Bits) : Type 0 where
  pub keeps : (block bit : ℕ) → b block bit ≡ true → c block bit ≡ true

set_bit-keeps : (b : Bits) (h : ℕ) → Covers b (set_bit b h)
unfolding set_bit
set_bit-keeps b h = record { keeps = λ block bit on. ground arith }

test-set_bit : (b : Bits) (h : ℕ) → test (set_bit b h) h ≡ true
unfolding set_bit
test-set_bit b h = ground arith

pub Covers-trans : {a b c : Bits} → Covers a b → Covers b c → Covers a c
Covers-trans ab bc = record { keeps = λ block bit on. bc.keeps block bit (ab.keeps block bit on) }

pub Covers-refl : (b : Bits) → Covers b b
Covers-refl b = record { keeps = λ block bit on. on }

module _ (shards : ℕ) (hs : ℕ × ℕ) where
  -- The bits of the rounds are set.
  abbrev pub Has : List ℕ → Bits → Type 0
  Has js b = All (λ j. test b (position shards hs j) ≡ true) js

  Has-Covers : (js : List ℕ) {b c : Bits} → Covers b c → Has js b → Has js c
  Has-Covers [] cover has = tt
  Has-Covers (j ∷ js) cover has = (cover.keeps _ _ has.0, Has-Covers js cover has.1)

  add_loop-Covers : (js : List ℕ) (b : Bits) → Covers b (add_loop shards hs js b)
  unfolding add_loop
  add_loop-Covers [] b = Covers-refl b
  add_loop-Covers (j ∷ js) b =
      Covers-trans (set_bit-keeps b (position shards hs j)) (add_loop-Covers js _)

  add_loop-Has : (js : List ℕ) (b : Bits) → Has js (add_loop shards hs js b)
  unfolding add_loop
  add_loop-Has [] b = tt
  add_loop-Has (j ∷ js) b =
      ((add_loop-Covers js _).keeps _ _ (test-set_bit b (position shards hs j)), add_loop-Has js _)

  -- The bits after one round of `existsAndAdd`.
  abbrev next : ℕ → Bits → Bits
  next j b = if test b (position shards hs j) then b else set_bit b (position shards hs j)

  next-Covers : (j : ℕ) (b : Bits) → Covers b (next j b)
  next-Covers j b = elim (Bool-cases (test b (position shards hs j))) [
    | inl on ↦ rw on (Covers-refl b)
    | inr off ↦ rw off (set_bit-keeps b (position shards hs j))
  ]

  next-test : (j : ℕ) (b : Bits) → test (next j b) (position shards hs j) ≡ true
  next-test j b = elim (Bool-cases (test b (position shards hs j))) [
    | inl on ↦ rw on on
    | inr off ↦ rw off (test-set_bit b (position shards hs j))
  ]

  exists_loop-Covers :
      (js : List ℕ) (p : Bool) (b : Bits) → Covers b (exists_and_add_loop shards hs js p b).1
  unfolding exists_and_add_loop
  exists_loop-Covers [] p b = Covers-refl b
  exists_loop-Covers (j ∷ js) p b = Covers-trans (next-Covers j b) (exists_loop-Covers js _ _)

  exists_loop-Has :
      (js : List ℕ) (p : Bool) (b : Bits) → Has js (exists_and_add_loop shards hs js p b).1
  unfolding exists_and_add_loop
  exists_loop-Has [] p b = tt
  exists_loop-Has (j ∷ js) p b =
      ((exists_loop-Covers js _ _).keeps _ _ (next-test j b), exists_loop-Has js _ _)

  -- A filter that has the bits answers as it was asked.
  exists_loop-present :
      (js : List ℕ) (p : Bool) (b : Bits) → Has js b → (exists_and_add_loop shards hs js p b).0 ≡ p
  unfolding exists_and_add_loop
  exists_loop-present [] p b has = refl
  exists_loop-present (j ∷ js) p b has =
      rw (has.0, exists_and_add_loop) (exists_loop-present js p b has.1)

-- The filter has all four bits of an event.
abbrev pub Seen : Text → Text → InProcessBloom → Type 0
Seen org_id event_id b = Has b.shards (hash org_id event_id) rounds b.bits

-- One filter is reached from another: as many shards, and no bit is lost.
pub record Extends (b c : InProcessBloom) : Type 0 where
  pub shards : b.shards ≡ c.shards
  pub covers : Covers b.bits c.bits

pub Extends-refl : (b : InProcessBloom) → Extends b b
Extends-refl b = record { shards = refl; covers = Covers-refl b.bits }

pub Extends-trans : {a b c : InProcessBloom} → Extends a b → Extends b c → Extends a c
Extends-trans ab bc = record {
  shards = ab.shards ∙ bc.shards;
  covers = Covers-trans ab.covers bc.covers;
}

module _ (o e : Text) where
  pub Seen-Extends : {b c : InProcessBloom} → Extends b c → Seen o e b → Seen o e c
  Seen-Extends {b} {c} x has = rw (← x.shards) (Has-Covers b.shards (hash o e) rounds x.covers has)

  pub add-Extends : (b : InProcessBloom) → Extends b (add o e b)
  unfolding add
  add-Extends b = record {
    shards = refl;
    covers = add_loop-Covers b.shards (hash o e) rounds b.bits;
  }

  pub add-Seen : (b : InProcessBloom) → Seen o e (add o e b)
  unfolding add
  add-Seen b = add_loop-Has b.shards (hash o e) rounds b.bits

  pub exists_and_add-Extends : (b : InProcessBloom) → Extends b (exists_and_add o e b).1
  unfolding exists_and_add
  exists_and_add-Extends b = record {
    shards = refl;
    covers = exists_loop-Covers b.shards (hash o e) rounds true b.bits;
  }

  pub exists_and_add-Seen : (b : InProcessBloom) → Seen o e (exists_and_add o e b).1
  unfolding exists_and_add
  exists_and_add-Seen b = exists_loop-Has b.shards (hash o e) rounds true b.bits

  pub exists_and_add-present : (b : InProcessBloom) → Seen o e b → (exists_and_add o e b).0 ≡ true
  unfolding exists_and_add
  exists_and_add-present b has = exists_loop-present b.shards (hash o e) rounds true b.bits has
