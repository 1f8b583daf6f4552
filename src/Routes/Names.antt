-- ===== src/Routes/Names.antt =====
-- The name of an Envoy cluster does not depend on the order of the tags.
use jewel.Prelude.{◌≡◌, refl, ◌∙◌, ◌⊎◌, inl, inr, true, Text, List, [], ◌∷◌, arith}
use mathlib.Core.List.{Permᴰ}
use jewel.Routes.{Route}
use jewel.Routes.Clusters.{tags_list, text_leb, insert_text, sort, envoy_cluster_name}

text_leb_total : (s t : Text) → (text_leb s t ≡ true) ⊎ (text_leb t s ≡ true)
unfolding text_leb
text_leb_total [] t = inl refl
text_leb_total (c ∷ s) [] = inr refl
text_leb_total (c ∷ s) (d ∷ t) = ground (arith, text_leb_total s t)

text_leb_antisym : (s t : Text) → text_leb s t ≡ true → text_leb t s ≡ true → s ≡ t
unfolding text_leb
text_leb_antisym [] [] h k = refl
text_leb_antisym [] (d ∷ t) h k = cc
text_leb_antisym (c ∷ s) [] h k = cc
text_leb_antisym (c ∷ s) (d ∷ t) h k = ground (arith, text_leb_antisym s t)

text_leb_trans : (s t u : Text) → text_leb s t ≡ true → text_leb t u ≡ true → text_leb s u ≡ true
unfolding text_leb
text_leb_trans [] t u h k = refl
text_leb_trans (c ∷ s) [] u h k = cc
text_leb_trans (c ∷ s) (d ∷ t) [] h k = cc
text_leb_trans (c ∷ s) (d ∷ t) (e ∷ u) h k = ground (arith, text_leb_trans s t u)

-- Insertions commute.
insert_text_comm :
    (s t : Text) (ts : List Text)
    → insert_text s (insert_text t ts) ≡ insert_text t (insert_text s ts)
unfolding insert_text
insert_text_comm s t [] = ground (arith, text_leb_total s t, text_leb_antisym s t)
insert_text_comm s t (u ∷ ts) = ground (
  arith,
  text_leb_total s t,
  text_leb_antisym s t,
  text_leb_trans s t u,
  text_leb_trans t s u,
  text_leb_total t u,
  text_leb_total s u,
  insert_text_comm s t ts,
)

sort-Permᴰ : {l l' : List Text} → Permᴰ l l' → sort l ≡ sort l'
unfolding sort
sort-Permᴰ Permᴰ.nil = refl
sort-Permᴰ (Permᴰ.cons e d) = rw (e, sort-Permᴰ d) refl
sort-Permᴰ (Permᴰ.swap {a} {b} {a'} {b'} {l} e e') = rw (e, e') (insert_text_comm b' a' (sort l))
sort-Permᴰ (Permᴰ.trans d d') = sort-Permᴰ d ∙ sort-Permᴰ d'

-- Two routes to the same service cluster and port, whose tags are the same in another order, are given
-- the same Envoy cluster.
pub envoy_cluster_name_unordered :
    (q r : Route)
    → q.service_cluster.pk ≡ r.service_cluster.pk
    → q.service_port ≡ r.service_port
    → Permᴰ (tags_list q.node_tags) (tags_list r.node_tags)
    → envoy_cluster_name q ≡ envoy_cluster_name r
unfolding envoy_cluster_name
envoy_cluster_name_unordered q r pk port tags = rw (pk, port, sort-Permᴰ tags) refl
