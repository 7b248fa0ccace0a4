-- ===== src/Config/Accepted.antt =====
-- What holds of a configuration that ParseConfig returns.
use bigpipe_cpp.Base.{
  ◌||◌, not, leb_ℤ, ◌<ℤ◌, pos, ℤ, IsOrdered, ◌≡◌, refl, sym, subst, ap, ◌∙◌, Bool, true, false,
  Bool-cases, inl, inr, List, [], ◌∷◌, arith, Option, none, some, is_set, Outcome, done, fail,
  exception, ◌>>=◌, >>=-eq-done, ltb, String, lookup, insert, same_text, Double, All, if◌then◌else◌,
}
use bigpipe_cpp.Folly.{Folly}
use bigpipe_cpp.Proto.{Files, read_file}
use bigpipe_cpp.Proto.Acl.{AccessControlList, no_acl}
use bigpipe_cpp.Proto.Acl
use bigpipe_cpp.Breaker.{CircuitBreakerConf}
use bigpipe_cpp.Config.{
  ConsumerConf, Config, Scalars, Topics, Acls, unless_null, caught, read_acls, read_scalars,
  read_topics, read_breaker, guard_consumer, read_consumer, is_valid, with_breaker, finish,
  double_at, string_at, int_at, read_config, parse_config,
}

abbrev pub HasTopic : Topics → String × AccessControlList → Type 0
HasTopic topics entry = is_set (lookup entry.1.topic topics) ≡ true

All-insert :
    (topics : Topics) (k : String) (acl : AccessControlList) (acls : Acls)
    → HasTopic topics (k, acl)
    → All (HasTopic topics) acls
    → All (HasTopic topics) (insert k acl acls)
unfolding insert
All-insert topics k acl [] h v = (h, tt)
All-insert topics k acl ((j, a) ∷ acls) h v = elim (Bool-cases (same_text k j)) [
  | inl e ↦ rw e (h, v.1)
  | inr e ↦ rw e (v.0, All-insert topics k acl acls h v.1)
]

some_done :
    {A : Type 0} {a b : A} → ◌≡◌ {A = Outcome (Option A)} (done (some a)) (done (some b)) → a ≡ b
some_done e = cc

-- An early return of a null pointer is not taken.
if_done :
    {A : Type 0} (b : Bool) (r : Outcome (Option A)) {a : A}
    → (if b then r else done none) ≡ done (some a)
    → (b ≡ true) × (r ≡ done (some a))
if_done true r e = (refl, e)
if_done false r e = cc

caught_lem :
    {A : Type 0} (o : Outcome (Option A)) {a : A} → caught o ≡ done (some a) → o ≡ done (some a)
caught_lem (done c) e = e
caught_lem (fail exception) e = cc
caught_lem (fail x) e = cc

not_null :
    {A B : Type 0} (o : Option A) (g : A → Outcome (Option B)) {b : B}
    → unless_null o g ≡ done (some b)
    → (a : A) × (o ≡ some a) × (g a ≡ done (some b))
not_null none g e = cc
not_null (some a) g e = (a, refl, e)

module _ {D W : Type 0} (f : Folly D W) where
  read_acls-HasTopic :
      (topics : Topics) (maps : List D) (acls : Acls) {result : Acls}
      → All (HasTopic topics) acls
      → read_acls f topics maps acls ≡ done (some result)
      → All (HasTopic topics) result
  unfolding read_acls
  read_acls-HasTopic topics [] acls {result} v e = subst (All (HasTopic topics)) (some_done e) v
  read_acls-HasTopic topics (map ∷ maps) acls v e =
      let (text, _, e₁) = >>=-eq-done (f.as_string map) _ e in
      let acl = (Acl.from_json f text no_acl).0 in
      let (ok, _, e₂) = >>=-eq-done (Acl.from_json f text no_acl).1 _ e₁ in
      let (known, e₃) = if_done (is_set (lookup acl.topic topics)) _ e₂ in
      read_acls-HasTopic topics maps (insert acl.name acl acls)
        (All-insert topics acl.name acl acls known v) e₃

-- Of four tests none holds.
none_of :
    (a b c e : Bool)
    → not (a || b || c || e) ≡ true
    → (a ≡ false) × (b ≡ false) × (c ≡ false) × (e ≡ false)
none_of true b c e h = cc
none_of false true c e h = cc
none_of false false true e h = cc
none_of false false false true h = cc
none_of false false false false h = (refl, refl, refl, refl)

positive_lem : (n : ℤ) → leb_ℤ n (pos 0) ≡ false → pos 0 <ℤ n
positive_lem n h = ground arith

module _ {W : Type 0} ⦃d : Double W⦄ where
  -- A positive window and minimum, and a whole health rate above 0 that is at most 100.
  pub record IsSensible (b : CircuitBreakerConf W) : Type 0 where
    pub window : pos 0 <ℤ b.win_size
    pub minimum : pos 0 <ℤ b.min_stats
    pub rate : ℤ
    pub whole : b.health_rate ≡ d.of_int rate
    pub above : pos 0 <ℤ rate
    pub bound : d.le b.health_rate (d.of_int (pos 100)) ≡ true

  pub record IsAccepted (c : Config W) : Type 0 where
    pub consumer_topic : is_set (lookup c.kafka_consumer.topic c.kafka_topics) ≡ true
    pub acl_topics : All (HasTopic c.kafka_topics) c.kafka_producer_acl
    pub breaker :
        (b : CircuitBreakerConf W) → c.kafka_consumer.circuit_breaker_conf ≡ some b → IsSensible b

  -- Only a valid configuration of a breaker is kept.
  kept_if_valid : CircuitBreakerConf W → Outcome (Option (CircuitBreakerConf W))
  kept_if_valid c = done (if is_valid c then some c else none)

  valid_if :
      (c b : CircuitBreakerConf W) → kept_if_valid c ≡ done (some b) → (c ≡ b) × (is_valid c ≡ true)
  unfolding kept_if_valid
  valid_if c b e = elim (Bool-cases (is_valid c)) [
    | inl v ↦ (some_done (rw v at e), v)
    | inr v ↦ let refused = rw v at e in cc
  ]

module _ (W : Type 0) ⦃d : Double W⦄ ⦃o : IsOrdered W⦄ where
  above_lem : (k : ℤ) → d.le (d.of_int k) (d.of_int (pos 0)) ≡ false → pos 0 <ℤ k
  above_lem k h = elim (Bool-cases (leb_ℤ k (pos 0))) [
    | inl low ↦ let le = o.of_int_mono k (pos 0) (ground arith) in cc
    | inr high ↦ positive_lem k high
  ]

  bound_lem :
      (k : ℤ)
      → d.lt (d.of_int (pos 100)) (d.of_int k) ≡ false
      → d.le (d.of_int k) (d.of_int (pos 100)) ≡ true
  bound_lem k h =
      let same =
        o.lt-eq-not-le (d.of_int (pos 100)) (d.of_int k)
          (o.of_int_mono (pos 100) (pos 100) (omega arith)) (o.of_int_mono k k (omega arith)) in
      elim (Bool-cases (d.le (d.of_int k) (d.of_int (pos 100)))) [
        | inl fits ↦ fits
        | inr over ↦ let clash = rw over at same in cc
      ]

module _ {W : Type 0} ⦃d : Double W⦄ ⦃o : IsOrdered W⦄ where
  is_valid-IsSensible :
      (c : CircuitBreakerConf W) (k : ℤ)
      → c.health_rate ≡ d.of_int k
      → is_valid c ≡ true
      → IsSensible c
  is_valid-IsSensible c k e v =
      let (w, m, l, u) = none_of _ _ _ _ v in
      record {
        window = positive_lem c.win_size w;
        minimum = positive_lem c.min_stats m;
        rate = k;
        whole = e;
        above = above_lem W k (rw e at l);
        bound = rw e (bound_lem W k (rw e at u));
      }

module _ {D W : Type 0} (f : Folly D W) ⦃d : Double W⦄ ⦃o : IsOrdered W⦄ where
  abbrev IsGuarded : ConsumerConf W → Type 0
  IsGuarded c = (b : CircuitBreakerConf W) → c.circuit_breaker_conf ≡ some b → IsSensible b

  read_breaker-IsSensible :
      (map : D) (b : CircuitBreakerConf W) → read_breaker f map ≡ done (some b) → IsSensible b
  unfolding read_breaker kept_if_valid
  read_breaker-IsSensible map b e =
      let (recover_period, _, e₁) = >>=-eq-done (double_at f "recoverPeriod" map) _ e in
      let (break_period, _, e₂) = >>=-eq-done (double_at f "breakPeriod" map) _ e₁ in
      let (win_size, _, e₃) = >>=-eq-done (double_at f "winSize" map) _ e₂ in
      let (health_rate, _, e₄) = >>=-eq-done (double_at f "healthRate" map) _ e₃ in
      let (min_stats, _, e₅) = >>=-eq-done (double_at f "minStats" map) _ e₄ in
      let (same, valid) =
        valid_if
          (record {
            break_period = break_period;
            recover_period = recover_period;
            win_size = win_size;
            min_stats = min_stats;
            health_rate = d.of_int health_rate;
          })
          b e₅ in
      subst IsSensible same (is_valid-IsSensible _ health_rate refl valid)

  with_breaker-IsGuarded :
      (c : ConsumerConf W) (o : Option (CircuitBreakerConf W)) (c' : ConsumerConf W)
      → ((b : CircuitBreakerConf W) → o ≡ some b → IsSensible b)
      → with_breaker c o ≡ done (some c')
      → IsGuarded c'
  with_breaker-IsGuarded c none c' h e = λ b' k. cc
  with_breaker-IsGuarded c (some b) c' h e =
      λ b' k. h b' (ap (λ (x : ConsumerConf W). x.circuit_breaker_conf) (some_done e) ∙ k)

  bound_breaker-IsGuarded :
      (conf c : ConsumerConf W) (o : Outcome (Option (CircuitBreakerConf W)))
      → ((b : CircuitBreakerConf W) → o ≡ done (some b) → IsSensible b)
      → (o >>= with_breaker conf) ≡ done (some c)
      → IsGuarded c
  bound_breaker-IsGuarded conf c (done o) h e =
      with_breaker-IsGuarded conf o c (λ b k. h b (ap done k)) e
  bound_breaker-IsGuarded conf c (fail x) h e = cc

  guard_consumer-IsGuarded :
      (conf : ConsumerConf W) (item : D) (c : ConsumerConf W)
      → conf.circuit_breaker_conf ≡ none
      → guard_consumer f conf item ≡ done (some c)
      → IsGuarded c
  unfolding guard_consumer
  guard_consumer-IsGuarded conf item c h e =
      let (n, _, e₁) = >>=-eq-done (f.count "circuitBreaker" item) _ e in by_count (ltb 0 n) e₁
    where
      valid :
          (b : CircuitBreakerConf W)
          → (f.index "circuitBreaker" item >>= read_breaker f) ≡ done (some b)
          → IsSensible b
      valid b k =
          let (map, _, k₁) = >>=-eq-done (f.index "circuitBreaker" item) _ k in
          read_breaker-IsSensible map b k₁

      by_count :
          (given : Bool)
          → (if given
              then f.index "circuitBreaker" item >>= read_breaker f >>= with_breaker conf
              else done (some conf))
            ≡ done (some c)
          → IsGuarded c
      by_count false e₂ = λ b k.
          let clash =
            sym h ∙ ap (λ (x : ConsumerConf W). x.circuit_breaker_conf) (some_done e₂) ∙ k in
          cc
      by_count true e₂ =
          bound_breaker-IsGuarded conf c (f.index "circuitBreaker" item >>= read_breaker f) valid e₂

  read_consumer-IsGuarded :
      (item : D) (c : ConsumerConf W) → read_consumer f item ≡ done (some c) → IsGuarded c
  unfolding read_consumer
  read_consumer-IsGuarded item c e =
      let (topic, _, e₁) = >>=-eq-done (string_at f "topic" item) _ e in
      let (group_id, _, e₂) = >>=-eq-done (string_at f "groupId" item) _ e₁ in
      let (rate_limit, _, e₃) = >>=-eq-done (int_at f "rateLimit" item) _ e₂ in
      let (retries, _, e₄) = >>=-eq-done (int_at f "retries" item) _ e₃ in
      let (timeout, _, e₅) = >>=-eq-done (int_at f "timeout" item) _ e₄ in
      let (concurrency, _, e₆) = >>=-eq-done (int_at f "concurrency" item) _ e₅ in
      guard_consumer-IsGuarded _ item c refl e₆

  finish-topic :
      (scalars : Scalars) (topics : Topics) (acls : Acls) (consumer : ConsumerConf W) (c : Config W)
      → finish scalars topics acls consumer ≡ done (some c)
      → (is_set (lookup consumer.topic topics) ≡ true)
        × (c.kafka_topics ≡ topics)
        × (c.kafka_producer_acl ≡ acls)
        × (c.kafka_consumer ≡ consumer)
  finish-topic scalars topics acls consumer c e = ground arith

  finish-IsAccepted :
      (scalars : Scalars) (topics : Topics) (acls : Acls) (consumer : ConsumerConf W) (c : Config W)
      → All (HasTopic topics) acls
      → IsGuarded consumer
      → finish scalars topics acls consumer ≡ done (some c)
      → IsAccepted c
  finish-IsAccepted scalars topics acls consumer c known guarded e =
      let (set, t, a, k) = finish-topic scalars topics acls consumer c e in
      record {
        consumer_topic = rw (t, k) set;
        acl_topics = rw (t, a) known;
        breaker = rw k guarded;
      }

  read_config-IsAccepted :
      (dict : D) (c : Config W) → read_config f dict ≡ done (some c) → IsAccepted c
  unfolding read_config
  read_config-IsAccepted dict c e =
      let (scalars, _, e₁) = >>=-eq-done (read_scalars f dict) _ e in
      let (topic_maps, _, e₂) = >>=-eq-done (f.index "kafka.topics" dict >>= f.elements) _ e₁ in
      let (topics, _, e₃) = >>=-eq-done (read_topics f topic_maps []) _ e₂ in
      let (acl_maps, _, e₄) = >>=-eq-done (f.index "kafka.producer.acl" dict >>= f.elements) _ e₃ in
      let (acls?, read, e₅) = >>=-eq-done (read_acls f topics acl_maps []) _ e₄ in
      let (acls, some_acls, e₆) = not_null acls? _ e₅ in
      let (item, _, e₇) = >>=-eq-done (f.index "kafka.consumer" dict) _ e₆ in
      let (consumer?, parsed, e₈) = >>=-eq-done (read_consumer f item) _ e₇ in
      let (consumer, some_consumer, e₉) = not_null consumer? _ e₈ in
      finish-IsAccepted scalars topics acls consumer c
        (read_acls-HasTopic f topics acl_maps [] tt (read ∙ ap done some_acls))
        (read_consumer-IsGuarded item consumer (parsed ∙ ap done some_consumer)) e₉

  -- A configuration that ParseConfig returns names known topics only: the consumer's topic and the
  -- topic of every access control list are among the configured ones. Its breaker, if it has one, has
  -- a window and a minimum above 0, and a whole health rate above 0 that is at most 100 as a
  -- `double`.
  pub parse_config-IsAccepted :
      (files : Files) (path : String) (c : Config W)
      → parse_config f files path ≡ done (some c)
      → IsAccepted c
  unfolding parse_config read_config
  parse_config-IsAccepted files path c e =
      let (dict, _, e₀) = >>=-eq-done (f.parse_json (read_file (files path))) _ e in
      read_config-IsAccepted dict c (caught_lem (read_config f dict) e₀)
