-- ===== src/Telemetry/Topics.antt =====
-- The topic and the metric's name that a DDATA message carries.
use matter_hub.Prelude.{
  ℕ, zero, suc, ◌^◌, ◌<◌, ◌≤◌, ◌≡◌, refl, ap, ◌≢◌, ◌↔◌, List, [], ◌∷◌, ◌++◌, codes, Bool, true,
  false, some, take, length, length-append, ◌==◌, ◌&&◌, if◌then◌else◌, arith,
}
use matter_hub.Prelude.Int.{pos}
use matter_hub.Outcome.{ret}
use matter_hub.Text.{decimal, decimal_int, snprintf, slash, split, stoull, stoi}
use matter_hub.Text.Split.{join, HasNoSlash, join-split}
use matter_hub.Text.Decimal.{decimal-HasNoSlash, length-decimal, stoull-decimal, stoi-decimal}
use matter_hub.Telemetry.{AttributePath, data_topic, metric_name, buffer_length}

take_all : (n : ℕ) (s : List ℕ) → length s ≤ n → take n s ≡ s
take_all zero [] h = refl
take_all zero (c ∷ s) h = elim h [ ]
take_all (suc n) [] h = refl
take_all (suc n) (c ∷ s) h = ap (◌∷◌ c) (take_all n s (omega arith))

snprintf_all : (s : List ℕ) → length s ≤ 255 → snprintf 256 s ≡ s
unfolding snprintf
snprintf_all s h = take_all 255 s h

-- A literal without a slash.
is_plain : List ℕ → Bool
is_plain [] = true
is_plain (c ∷ s) = (if c == b'/' then false else true) && is_plain s

is_plain-HasNoSlash : (s : List ℕ) → is_plain s ≡ true → HasNoSlash s
unfolding is_plain
is_plain-HasNoSlash [] h = tt
is_plain-HasNoSlash (c ∷ s) h = (λ e. ground arith, is_plain-HasNoSlash s (ground arith))

abbrev plain_words :
    HasNoSlash (codes "spBv1.0") × HasNoSlash (codes "matterhub") × HasNoSlash (codes "DDATA")
unfolding is_plain
plain_words = (
  is_plain-HasNoSlash (codes "spBv1.0") refl,
  is_plain-HasNoSlash (codes "matterhub") refl,
  is_plain-HasNoSlash (codes "DDATA") refl,
)

topic-join :
    (hub node : ℕ)
    → codes "spBv1.0/matterhub/DDATA/" ++ (decimal hub ++ (slash ++ decimal node))
      ≡ join (codes "spBv1.0" ∷ codes "matterhub" ∷ codes "DDATA" ∷ decimal hub ∷ decimal node ∷ [])
unfolding join
topic-join hub node = refl

topic-fits :
    (hub node : ℕ)
    → hub < 2 ^ 31
    → node < 2 ^ 64
    → length (codes "spBv1.0/matterhub/DDATA/" ++ (decimal hub ++ (slash ++ decimal node))) ≤ 255
topic-fits hub node h k = omega (
  arith,
  length-append {0} (decimal hub) (slash ++ decimal node),
  length-decimal 20 node (omega arith) (omega arith),
  length-decimal 10 hub (omega arith) (omega arith),
)

split-data_topic :
    (hub node : ℕ)
    → hub < 2 ^ 31
    → node < 2 ^ 64
    → split (data_topic (pos hub) node)
      ≡ some (codes "spBv1.0" ∷ codes "matterhub" ∷ codes "DDATA" ∷ decimal hub ∷ decimal node ∷ [])
unfolding data_topic decimal_int
split-data_topic hub node h k =
    let (a, b, c) = plain_words in
    rw (snprintf_all _ (topic-fits hub node h k), topic-join)
      (join-split (codes "spBv1.0")
        (codes "matterhub" ∷ codes "DDATA" ∷ decimal hub ∷ decimal node ∷ [])
        (a, (b, (c, (decimal-HasNoSlash hub, (decimal-HasNoSlash node, tt))))))

name-join :
    (e k a : ℕ)
    → decimal e ++ (slash ++ (decimal k ++ (slash ++ decimal a)))
      ≡ join (decimal e ∷ decimal k ∷ decimal a ∷ [])
unfolding join
name-join e k a = refl

name-fits :
    (e k a : ℕ)
    → e < 2 ^ 32
    → k < 2 ^ 32
    → a < 2 ^ 32
    → length (decimal e ++ (slash ++ (decimal k ++ (slash ++ decimal a)))) ≤ 255
name-fits e k a he hk ha = omega (
  arith,
  length-append {0} (decimal e) (slash ++ (decimal k ++ (slash ++ decimal a))),
  length-append {0} (decimal k) (slash ++ decimal a),
  length-decimal 10 e (omega arith) (omega arith),
  length-decimal 10 k (omega arith) (omega arith),
  length-decimal 10 a (omega arith) (omega arith),
)

split-metric_name :
    (p : AttributePath)
    → p.endpoint_id < 2 ^ 32
    → p.cluster_id < 2 ^ 32
    → p.attribute_id < 2 ^ 32
    → split (metric_name p)
      ≡ some (decimal p.endpoint_id ∷ decimal p.cluster_id ∷ decimal p.attribute_id ∷ [])
unfolding metric_name
split-metric_name p he hk ha =
    rw (snprintf_all _ (name-fits p.endpoint_id p.cluster_id p.attribute_id he hk ha), name-join)
      (join-split (decimal p.endpoint_id) (decimal p.cluster_id ∷ decimal p.attribute_id ∷ []) (
        decimal-HasNoSlash p.endpoint_id,
        (decimal-HasNoSlash p.cluster_id, (decimal-HasNoSlash p.attribute_id, tt)),
      ))

-- For a hub id that is a 32-bit int and not negative, and a 64-bit node id, the topic of a report
-- is not cut off: the splitting loop of DCMD_callback takes it apart into five tokens, the first
-- three are `spBv1.0`, `matterhub` and `DDATA`, and `std::stoull` reads the hub id from the fourth
-- and the node id from the fifth.
pub data_topic-tokens :
    (hub node : ℕ)
    → hub < 2 ^ 31
    → node < 2 ^ 64
    → (h n : List ℕ) × (split (data_topic (pos hub) node)
        ≡ some (codes "spBv1.0" ∷ codes "matterhub" ∷ codes "DDATA" ∷ h ∷ n ∷ []))
      × (stoull h ≡ ret hub)
      × (stoull n ≡ ret node)
data_topic-tokens hub node h k = (
  decimal hub,
  decimal node,
  split-data_topic hub node h k,
  stoull-decimal hub (omega arith),
  stoull-decimal node k,
)

-- For an endpoint, a cluster and an attribute below 2 ^ 31, the splitting loop of DCMD_callback
-- takes the name of a report's metric apart into three tokens, from which `std::stoi` reads the
-- three ids.
metric_name-tokens :
    (p : AttributePath)
    → p.endpoint_id < 2 ^ 31
    → p.cluster_id < 2 ^ 31
    → p.attribute_id < 2 ^ 31
    → (e k a : List ℕ) × (split (metric_name p) ≡ some (e ∷ k ∷ a ∷ []))
      × (stoi e ≡ ret (pos p.endpoint_id))
      × (stoi k ≡ ret (pos p.cluster_id))
      × (stoi a ≡ ret (pos p.attribute_id))
metric_name-tokens p he hk ha = (
  decimal p.endpoint_id,
  decimal p.cluster_id,
  decimal p.attribute_id,
  split-metric_name p (omega arith) (omega arith) (omega arith),
  stoi-decimal p.endpoint_id he,
  stoi-decimal p.cluster_id hk,
  stoi-decimal p.attribute_id ha,
)

-- The buffer for a byte string whose length has 16 bits has room for the string and its terminator
-- unless the length is 65535: then the sum wraps around and the buffer is empty.
buffer_length_iff : (n : ℕ) → n < 2 ^ 16 → (n < buffer_length n) ↔ (n ≢ 65535)
unfolding buffer_length
buffer_length_iff n h = (λ r e. omega arith, λ r. omega arith)
