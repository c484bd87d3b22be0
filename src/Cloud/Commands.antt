-- ===== src/Cloud/Commands.antt =====
-- DCMD messages: the well-formed ones become the work they name, the others are dropped or throw.
use mathlib.Core.List.{map-append}
use native.Mathlib.Nat.{mod-eq_of_lt}
use matter_hub.Prelude.{
  ℕ, codes, zero, suc, ◌+◌, ◌^◌, ◌<◌, ◌≤◌, ◌≡◌, refl, sym, ap, ◌∙◌, List, [], ◌∷◌, ◌++◌, map,
  append-nil, append_assoc, length, take, get_elem?, get_elem?-lt, Option, some, arith,
}
use matter_hub.Prelude.Int.{pos, to_unsigned}
use matter_hub.Outcome.{ret, fault, invalid_argument, for_range, for_range_lem}
use matter_hub.Text.{split, stoull, decimal}
use matter_hub.Text.Split.{join, join-split, HasNoSlash, NoneHasSlash}
use matter_hub.Text.Decimal.{stoull-decimal, stoi-decimal, decimal-HasNoSlash}
use matter_hub.Interaction.{Interaction, subscription, invocation, reading, Work}
use matter_hub.Cloud.{Cjson, tokens, perform_action, perform_name, metric_step, dcmd_callback}

-- The actions of a name that need no value.
pub data Action : Type 0 where
  cmd read subscribe : Action

abbrev pub word : Action → List ℕ
word cmd = codes "cmd"
word read = codes "read"
word subscribe = codes "subscribe"

-- What a metric asks for: an action on an id of a cluster of an endpoint.
pub record Wish : Type 0 where
  pub action : Action
  pub endpoint : ℕ
  pub cluster : ℕ
  pub specific : ℕ

-- The ids fit their types, and `std::stoi`.
pub record InRange (w : Wish) : Type 0 where
  pub endpoint : w.endpoint < 2 ^ 16
  pub cluster : w.cluster < 2 ^ 31
  pub specific : w.specific < 2 ^ 31

-- <endpointID>/<clusterId>/<InteractionType>/<Argument> of docs/Sparkplug.md
pub name_of : Wish → List ℕ
name_of w = join (decimal w.endpoint ∷ decimal w.cluster ∷ word w.action ∷ decimal w.specific ∷ [])

abbrev pub interaction_for : {D : Type 0} → Action → ℕ → ℕ → ℕ → Interaction D
interaction_for cmd e k i = invocation e k i
interaction_for read e k i = reading e k i
interaction_for subscribe e k i = subscription e k i 1 10

abbrev pub work_of : {D : Type 0} → ℕ → Wish → Work D
work_of node w = record {
  fabric_id = 1;
  node_id = node;
  interaction = interaction_for w.action w.endpoint w.cluster w.specific;
}

tokens-split : (s : List ℕ) (ts : List (List ℕ)) → split s ≡ some ts → tokens s ≡ ts
unfolding tokens
tokens-split s ts h = rw (h, tokens)

tokens-join :
    (t : List ℕ) (ts : List (List ℕ)) → NoneHasSlash (t ∷ ts) → tokens (join (t ∷ ts)) ≡ t ∷ ts
tokens-join t ts h = tokens-split (join (t ∷ ts)) (t ∷ ts) (join-split t ts h)

word-HasNoSlash : (a : Action) → HasNoSlash (word a)
word-HasNoSlash cmd = omega arith
word-HasNoSlash read = omega arith
word-HasNoSlash subscribe = omega arith

tokens-name_of :
    (w : Wish)
    → tokens (name_of w)
      ≡ decimal w.endpoint ∷ decimal w.cluster ∷ word w.action ∷ decimal w.specific ∷ []
unfolding name_of
tokens-name_of w = tokens-join _ _ (
  decimal-HasNoSlash w.endpoint,
  (decimal-HasNoSlash w.cluster, (word-HasNoSlash w.action, (decimal-HasNoSlash w.specific, tt))),
)

to_unsigned-pos : (b n : ℕ) → n < 2 ^ b → to_unsigned b (pos n) ≡ n
unfolding to_unsigned
to_unsigned-pos b n h = mod-eq_of_lt h

module _ (J : Cjson) where
  open J use {Node, Double}

  perform_action-word :
      (node e k i : ℕ) (a : Action) (element : Option Node) (queue : List (Work Double))
      → perform_action J node e k (word a) i element queue
        ≡ ret (
            queue
            ++ record { fabric_id = 1; node_id = node; interaction = interaction_for a e k i } ∷ [])
  unfolding perform_action
  perform_action-word node e k i cmd element queue = refl
  perform_action-word node e k i read element queue = refl
  perform_action-word node e k i subscribe element queue = refl

  perform_name-wish :
      (node : ℕ) (w : Wish) (element : Option Node) (queue : List (Work Double))
      → InRange w
      → perform_name J node (tokens (name_of w)) element queue ≡ ret (queue ++ work_of node w ∷ [])
  unfolding perform_name
  perform_name-wish node w element queue h =
      rw
        (
          tokens-name_of w,
          stoi-decimal w.endpoint (omega arith),
          stoi-decimal w.cluster h.cluster,
          stoi-decimal w.specific h.specific,
          to_unsigned-pos 16 w.endpoint h.endpoint,
          to_unsigned-pos 32 w.cluster (omega arith),
          to_unsigned-pos 32 w.specific (omega arith),
        )
        (perform_action-word node w.endpoint w.cluster w.specific w.action element queue)

  -- The metric at place `i` is an object whose `name` is the text of a wish.
  pub record Names (metrics : Option Node) (i : ℕ) (w : Wish) : Type 0 where
    pub item : Node
    pub has_name : J.get_object_item (J.get_array_item metrics i) "name" ≡ some item
    pub is_text : J.value_string item ≡ some (name_of w)
    pub in_range : InRange w

  metric_step-Names :
      (node i : ℕ) (metrics : Option Node) (w : Wish) (queue : List (Work Double))
      → Names metrics i w
      → metric_step J node metrics i queue ≡ ret (queue ++ work_of node w ∷ [])
  unfolding metric_step
  metric_step-Names node i metrics w queue h =
      rw (h.has_name, metric_step)
        (rw h.is_text (perform_name-wish node w (J.get_array_item metrics i) queue h.in_range))

take-suc :
    {A : Type 0} (xs : List A) (k : ℕ) (x : A)
    → get_elem? xs k ≡ some x
    → take (suc k) xs ≡ take k xs ++ x ∷ []
take-suc [] k x e = cc
take-suc (y ∷ xs) zero x e = ground arith
take-suc (y ∷ xs) (suc k) x e = ap (◌∷◌ y) (take-suc xs k x e)

take-length : {A : Type 0} (xs : List A) → take (length xs) xs ≡ xs
take-length [] = refl
take-length (x ∷ xs) = ap (◌∷◌ x) (take-length xs)

stoull_letter : (c : ℕ) (s : List ℕ) → b'a' ≤ c → c ≤ b'z' → stoull (c ∷ s) ≡ fault invalid_argument
unfolding stoull
stoull_letter c s above below = ground arith

module _ (J : Cjson) where
  open J use {Node, Double}

  metrics_loop :
      (node : ℕ) (metrics : Option Node) (ws : List Wish) (queue : List (Work Double))
      → ((i : ℕ) (w : Wish) → get_elem? ws i ≡ some w → Names J metrics i w)
      → for_range (length ws) 0 (metric_step J node metrics) queue
        ≡ ret (queue ++ map (work_of node) ws)
  metrics_loop node metrics ws queue named =
      let (result, ran, done) =
        for_range_lem (λ k q. q ≡ queue ++ map (work_of node) (take k ws))
          (metric_step J node metrics) (length ws) 0 (length ws) (omega arith)
          (λ k s lt p.
            let (w, at_k) = get_elem?-lt ws k lt in
            (
              s ++ work_of node w ∷ [],
              metric_step-Names J node k metrics w s (named k w at_k),
              let e : k + 1 ≡ suc k = omega arith in
                  rw (e, take-suc ws k w at_k, p)
                    (append_assoc queue _ _
                      ∙ ap (λ t. queue ++ t)
                          (sym (map-append (work_of node) (take k ws) (w ∷ [])))),
            ))
          queue (sym (append-nil queue)) in
      ran ∙ ap ret (done ∙ rw (take-length ws))

  -- A message on a topic of five tokens, the last of them the decimal digits of a node, with any
  -- number of metrics that name an action without a value, does not throw: it schedules exactly the
  -- work that the metrics name, for that node, in their order.
  pub dcmd_callback_schedules :
      (t0 t1 t2 t3 message : List ℕ) (node : ℕ) (ws : List Wish) (queue : List (Work Double))
      → NoneHasSlash (t0 ∷ t1 ∷ t2 ∷ t3 ∷ [])
      → node < 2 ^ 64
      → J.get_array_size (J.get_object_item (J.parse_with_length message) "metrics") ≡ length ws
      → ((i : ℕ) (w : Wish)
          → get_elem? ws i ≡ some w
          → Names J (J.get_object_item (J.parse_with_length message) "metrics") i w)
      → dcmd_callback J (join (t0 ∷ t1 ∷ t2 ∷ t3 ∷ decimal node ∷ [])) message queue
        ≡ ret (queue ++ map (work_of node) ws)
  unfolding dcmd_callback
  dcmd_callback_schedules t0 t1 t2 t3 message node ws queue (h0, (h1, (h2, (h3, _)))) lt size
        named =
      rw
        (
          tokens-join t0 (t1 ∷ t2 ∷ t3 ∷ decimal node ∷ [])
              (h0, (h1, (h2, (h3, (decimal-HasNoSlash node, tt))))),
          stoull-decimal node lt,
          size,
        )
        (metrics_loop node _ ws queue named)

  -- A message on a topic of fewer than five tokens schedules nothing, whatever it says.
  dcmd_callback_drops :
      (t : List ℕ) (ts : List (List ℕ)) (message : List ℕ) (queue : List (Work Double))
      → NoneHasSlash (t ∷ ts)
      → length ts < 4
      → dcmd_callback J (join (t ∷ ts)) message queue ≡ ret queue
  unfolding dcmd_callback
  dcmd_callback_drops t ts message queue h few = rw (tokens-join t ts h) (ground arith)

  -- A message on a topic whose fifth token begins with a lower-case letter makes `std::stoull`
  -- throw `std::invalid_argument`, which nothing catches.
  dcmd_callback_throws :
      (t0 t1 t2 t3 t4 : List ℕ) (c : ℕ) (message : List ℕ) (queue : List (Work Double))
      → NoneHasSlash (t0 ∷ t1 ∷ t2 ∷ t3 ∷ (c ∷ t4) ∷ [])
      → b'a' ≤ c
      → c ≤ b'z'
      → dcmd_callback J (join (t0 ∷ t1 ∷ t2 ∷ t3 ∷ (c ∷ t4) ∷ [])) message queue
        ≡ fault invalid_argument
  unfolding dcmd_callback
  dcmd_callback_throws t0 t1 t2 t3 t4 c message queue h above below =
      rw (tokens-join t0 (t1 ∷ t2 ∷ t3 ∷ (c ∷ t4) ∷ []) h, stoull_letter c t4 above below)
