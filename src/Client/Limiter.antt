-- ===== src/Client/Limiter.antt =====
-- app/utils/rate_limiter.py: `AdaptiveRateLimiter`, over any numbers for its delays.
use file_extractor.Base.{Bool, List, [], ◌∷◌, true, false}

-- The floats that the limiter uses: `max`, `min`, `d * 0.9` and `d * 2.5`, with the order `Le` on
-- those that are numbers and not negative.
pub record Floats : Type 1 where
  pub Float : Type 0
  pub max : Float → Float → Float
  pub min : Float → Float → Float
  pub times_0_9 : Float → Float
  pub times_2_5 : Float → Float

pub record AdaptiveRateLimiter (f : Floats) : Type 0 where
  pub delay : f.Float
  pub min_delay : f.Float
  pub max_delay : f.Float

module _ {f : Floats} where
  unfoldable pub on_success : AdaptiveRateLimiter f → AdaptiveRateLimiter f
  on_success l = record l { delay = f.max l.min_delay (f.times_0_9 l.delay) }

  unfoldable pub on_failure : AdaptiveRateLimiter f → AdaptiveRateLimiter f
  on_failure l = record l { delay = f.min l.max_delay (f.times_2_5 l.delay) }

-- What the order is to the operations.
pub record FloatLaws (f : Floats) (Le : f.Float → f.Float → Type 0) : Type 0 where
  pub trans : (a b c : f.Float) → Le a b → Le b c → Le a c
  pub max_left : (a b : f.Float) → Le a (f.max a b)
  pub max_lub : (a b c : f.Float) → Le a c → Le b c → Le (f.max a b) c
  pub min_left : (a b : f.Float) → Le (f.min a b) a
  pub min_glb : (a b c : f.Float) → Le c a → Le c b → Le c (f.min a b)
  pub shrinks : (a : f.Float) → Le (f.times_0_9 a) a
  pub grows : (a : f.Float) → Le a (f.times_2_5 a)

module _ {f : Floats} {Le : f.Float → f.Float → Type 0} (laws : FloatLaws f Le) where
  -- The delay lies between the two bounds of the limiter, which are in order.
  pub record IsBounded (l : AdaptiveRateLimiter f) : Type 0 where
    pub bounds : Le l.min_delay l.max_delay
    pub above : Le l.min_delay l.delay
    pub below : Le l.delay l.max_delay

  pub on_success-IsBounded : (l : AdaptiveRateLimiter f) → IsBounded l → IsBounded (on_success l)
  unfolding on_success
  on_success-IsBounded l h = record {
    bounds = h.bounds;
    above = laws.max_left _ _;
    below = laws.max_lub _ _ _ h.bounds (laws.trans _ _ _ (laws.shrinks l.delay) h.below);
  }

  pub on_failure-IsBounded : (l : AdaptiveRateLimiter f) → IsBounded l → IsBounded (on_failure l)
  unfolding on_failure
  on_failure-IsBounded l h = record {
    bounds = h.bounds;
    above = laws.min_glb _ _ _ h.bounds (laws.trans _ _ _ h.above (laws.grows l.delay));
    below = laws.min_left _ _;
  }

-- The limiter after a series of outcomes, `true` for a success.
unfoldable pub after_outcomes :
    {f : Floats} → List Bool → AdaptiveRateLimiter f → AdaptiveRateLimiter f
after_outcomes [] l = l
after_outcomes (true ∷ rest) l = after_outcomes rest (on_success l)
after_outcomes (false ∷ rest) l = after_outcomes rest (on_failure l)

-- The delay stays between `min_delay` and `max_delay`, whatever the outcomes of the requests, if it
-- starts there and the floats are ordered as the laws say.
pub after_outcomes-IsBounded :
    {f : Floats} {Le : f.Float → f.Float → Type 0} (laws : FloatLaws f Le) (outcomes : List Bool)
    (l : AdaptiveRateLimiter f)
    → IsBounded laws l
    → IsBounded laws (after_outcomes outcomes l)
unfolding after_outcomes
after_outcomes-IsBounded laws [] l h = h
after_outcomes-IsBounded laws (true ∷ rest) l h =
    after_outcomes-IsBounded laws rest (on_success l) (on_success-IsBounded laws l h)
after_outcomes-IsBounded laws (false ∷ rest) l h =
    after_outcomes-IsBounded laws rest (on_failure l) (on_failure-IsBounded laws l h)
