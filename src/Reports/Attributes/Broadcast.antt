-- ===== src/Reports/Attributes/Broadcast.antt =====
-- An independent description of how the loop of ReportAttribute reads its id lists: a list with one
-- id stands for that id at every path.
use matter_hub.Prelude.{
  ℕ, zero, suc, ◌<◌, ◌≤◌, ◌≡◌, refl, ◌⊎◌, inl, inr, ◌≢◌, List, [], ◌∷◌, length, get_elem?, set,
  get_elem?-set_ne, get_elem?-lt, Bool, true, false, ◌||◌, Option, none, some, if◌then◌else◌, arith,
  ◌∙◌,
}
use matter_hub.Outcome.{ret, store}
use matter_hub.Reports.{ReportLibrary, AttributePathParams, DataVersionFilter, max_allowed_paths}
use matter_hub.Reports.Attributes.{
  Counts, counts_in_range, paths_count, has_same_ids_count, multiple_clusters, multiple_attributes,
  multiple_endpoints, multiple_data_versions, attribute_path,
}

-- The id that belongs to path `j`.
abbrev pub broadcast : List ℕ → ℕ → Option ℕ
broadcast [] j = none
broadcast (x ∷ []) j = some x
broadcast (x ∷ y ∷ xs) j = get_elem? (x ∷ y ∷ xs) j

-- A list serves `n` paths: it has one id, or one for each.
abbrev pub Serves : ℕ → ℕ → Type 0
Serves n k = (k ≡ n) ⊎ (k ≡ 1)

pub broadcast-index :
    (xs : List ℕ) (b : Bool) (n j : ℕ)
    → j < n
    → ((b ≡ true) × (length xs ≡ n)) ⊎ ((b ≡ false) × (length xs ≡ 1))
    → (x : ℕ) × (get_elem? xs (if b then j else 0) ≡ some x) × (broadcast xs j ≡ some x)
broadcast-index [] b n j lt (inl (e, l)) = absurd (omega arith)
broadcast-index [] b n j lt (inr (e, l)) = absurd (omega arith)
broadcast-index (x ∷ []) b n zero lt (inl (e, l)) = (x, ground arith, refl)
broadcast-index (x ∷ []) b n (suc j) lt (inl (e, l)) = absurd (omega arith)
broadcast-index (x ∷ []) b n j lt (inr (e, l)) = (x, rw e, refl)
broadcast-index (x ∷ y ∷ xs) b n j lt (inl (e, l)) =
    let (v, p) = get_elem?-lt (x ∷ y ∷ xs) j (omega arith) in (v, rw e p, p)
broadcast-index (x ∷ y ∷ xs) b n j lt (inr (e, l)) = absurd (omega arith)

-- Which index each list is read at, from the flags.
module _ (c : Counts) (n : ℕ) (e : paths_count c ≡ some n) where
  pub clusters_index :
      ((has_same_ids_count c || multiple_clusters c ≡ true) × (c.clusters ≡ n))
      ⊎ ((has_same_ids_count c || multiple_clusters c ≡ false) × (c.clusters ≡ 1))
  unfolding paths_count
  clusters_index = ground arith

  pub attributes_index :
      ((has_same_ids_count c || multiple_attributes c ≡ true) × (c.attributes ≡ n))
      ⊎ ((has_same_ids_count c || multiple_attributes c ≡ false) × (c.attributes ≡ 1))
  unfolding paths_count
  attributes_index = ground arith

  pub endpoints_index :
      ((has_same_ids_count c || multiple_endpoints c ≡ true) × (c.endpoints ≡ n))
      ⊎ ((has_same_ids_count c || multiple_endpoints c ≡ false) × (c.endpoints ≡ 1))
  unfolding paths_count
  endpoints_index = ground arith

  pub versions_index :
      c.versions ≢ 0
      → ((has_same_ids_count c || multiple_data_versions c ≡ true) × (c.versions ≡ n))
        ⊎ ((has_same_ids_count c || multiple_data_versions c ≡ false) × (c.versions ≡ 1))
  unfolding paths_count
  versions_index h = ground arith

  pub paths_count-le : counts_in_range c ≡ true → n ≤ max_allowed_paths
  unfolding paths_count counts_in_range
  paths_count-le h = ground arith

-- What the arrays hold at path `j`: each id, and each data version if there are any, is the one
-- that belongs to `j`.
abbrev pub FilterAt : Option (List ℕ) → List DataVersionFilter → ℕ → ℕ → ℕ → Type 0
FilterAt none filters j cluster_id endpoint_id = Unit
FilterAt (some versions) filters j cluster_id endpoint_id =
    (v : ℕ) × (broadcast versions j ≡ some v)
    × (get_elem? filters j
        ≡ some
            (record { endpoint_id = endpoint_id; cluster_id = cluster_id; data_version = some v }))

-- A list of data versions that is given holds one at least.
abbrev pub HasVersions : Option (List ℕ) → Type 0
HasVersions none = Unit
HasVersions (some versions) = length versions ≢ 0

-- A field of a path: the id that is meant for it, or its default for the invalid id.
abbrev pub Written : ℕ → ℕ → ℕ → ℕ → Type 0
Written invalid default id field = (id ≢ invalid → field ≡ id) × (id ≡ invalid → field ≡ default)

-- A path names a cluster, an attribute and an endpoint.
pub record NamesPath (lib : ReportLibrary) (c a e : ℕ) (path : AttributePathParams) : Type 0 where
  pub cluster :
      Written lib.invalid_cluster_id lib.default_attribute_path.cluster_id c path.cluster_id
  pub attribute :
      Written lib.invalid_attribute_id lib.default_attribute_path.attribute_id a path.attribute_id
  pub endpoint :
      Written lib.invalid_endpoint_id lib.default_attribute_path.endpoint_id e path.endpoint_id

pub attribute_path-NamesPath :
    (lib : ReportLibrary) (c a e : ℕ) → NamesPath lib c a e (attribute_path lib c a e)
unfolding attribute_path
attribute_path-NamesPath lib c a e = record {
  cluster = (λ h. ground arith, λ h. ground arith);
  attribute = (λ h. ground arith, λ h. ground arith);
  endpoint = (λ h. ground arith, λ h. ground arith);
}

module _ (lib : ReportLibrary) (endpoint_ids cluster_ids attribute_ids : List ℕ)
    (data_versions : Option (List ℕ)) where
  abbrev pub PathAt : List AttributePathParams → List DataVersionFilter → ℕ → Type 0
  PathAt paths filters j =
      (c a e : ℕ) × (broadcast cluster_ids j ≡ some c)
      × (broadcast attribute_ids j ≡ some a)
      × (broadcast endpoint_ids j ≡ some e)
      × (path : AttributePathParams) × (get_elem? paths j ≡ some path)
      × NamesPath lib c a e path
      × FilterAt data_versions filters j c e

  abbrev pub Filled : ℕ → List AttributePathParams × List DataVersionFilter → Type 0
  Filled k (paths, filters) =
      (length paths ≡ max_allowed_paths)
      × (length filters ≡ max_allowed_paths)
      × ((j : ℕ) → j < k → PathAt paths filters j)

pub store_lem :
    {A : Type 0} (xs : List A) (i : ℕ) (v : A) → i < length xs → store xs i v ≡ ret (set xs i v)
store_lem xs i v h = ground arith

pub FilterAt-set :
    (data_versions : Option (List ℕ)) (filters : List DataVersionFilter) (k j c e : ℕ)
    (f : DataVersionFilter)
    → k ≢ j
    → FilterAt data_versions filters j c e
    → FilterAt data_versions (set filters k f) j c e
FilterAt-set none filters k j c e f h at = tt
FilterAt-set (some versions) filters k j c e f h (v, b, g) =
    (v, b, get_elem?-set_ne filters k j f h ∙ g)
