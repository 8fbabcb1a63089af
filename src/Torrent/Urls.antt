-- ===== src/Torrent/Urls.antt =====
-- The tracker URLs of a torrent of src/aiobt/torrent.py.
use aiobt.Python.Bytes.{bytes_eq-true, Bytes, bytes_eq, bytes_eq_sym}
use aiobt.Torrent.{TorrentMeta, holds, add_urls, add_tiers, first_url, listed_urls, tracker_urls}
use aiobt.Prelude.{
  joined, sym, ap, ◌∙◌, true, inr, inl, Bool-cases, refl, false, ◌||◌, ◌≡◌, List, [], ◌∷◌, ◌++◌,
  Option, none, some, arith,
}

holds-append : (u : Bytes) (a b : List Bytes) → holds u (a ++ b) ≡ holds u a || holds u b
unfolding holds
holds-append u [] b = refl
holds-append u (v ∷ a) b = ground (arith, holds-append u a b)

-- No URL stands in the list twice.
abbrev pub IsDistinct : List Bytes → Type 0
IsDistinct [] = Unit
IsDistinct (u ∷ l) = (holds u l ≡ false) × IsDistinct l

snoc-IsDistinct :
    (l : List Bytes) (u : Bytes) → IsDistinct l → holds u l ≡ false → IsDistinct (l ++ (u ∷ []))
unfolding holds
snoc-IsDistinct [] u h e = (refl, tt)
snoc-IsDistinct (v ∷ l) u h e = (
  ground (arith, h, e, holds-append v l (u ∷ []), bytes_eq_sym u v),
  snoc-IsDistinct l u h.1 (ground arith),
)

seen_before :
    (urls l : List Bytes) (u v : Bytes)
    → holds v urls ≡ true
    → holds u urls || holds u l ≡ holds u urls || (bytes_eq v u || holds u l)
seen_before urls l u v e = elim (Bool-cases (bytes_eq v u)) [
  | inl f ↦
      let there : holds u urls ≡ true = ap (λ x. holds x urls) (sym (bytes_eq-true v u f)) ∙ e in
      ground arith
  | inr f ↦ ground arith
]

-- Adding URLs keeps the list without repetitions, and adds the URLs and no others.
add_urls_lem :
    (urls l : List Bytes) (u : Bytes)
    → IsDistinct urls
    → IsDistinct (add_urls urls l) × (holds u (add_urls urls l) ≡ holds u urls || holds u l)
unfolding add_urls holds
add_urls_lem urls [] u h = (h, ground arith)
add_urls_lem urls (v ∷ l) u h = elim (Bool-cases (holds v urls)) [
  | inl e ↦ rw e (let (d, q) = add_urls_lem urls l u h in (d, q ∙ seen_before urls l u v e))
  | inr e ↦ rw e (
      let (d, q) = add_urls_lem (urls ++ (v ∷ [])) l u (snoc-IsDistinct urls v h e) in
      (d, ground (arith, q, holds-append u urls (v ∷ []))))
]

add_tiers_lem :
    (urls : List Bytes) (tiers : List (List Bytes)) (u : Bytes)
    → IsDistinct urls
    → IsDistinct (add_tiers urls tiers)
      × (holds u (add_tiers urls tiers) ≡ holds u urls || holds u (joined tiers))
unfolding holds
add_tiers_lem urls [] u h = (h, ground arith)
add_tiers_lem urls (t ∷ l) u h =
    let (d, q) = add_urls_lem urls t u h in
    let (d', q') = add_tiers_lem (add_urls urls t) l u d in
    (d', ground (arith, q, q', holds-append u t (joined l)))

-- The tiers of an announce-list, of which there are none where it is missing.
abbrev pub tiers_of : Option (List (List Bytes)) → List (List Bytes)
tiers_of none = []
tiers_of (some tiers) = tiers

listed_lem :
    (o : Option (List (List Bytes))) (urls : List Bytes) (u : Bytes)
    → IsDistinct urls
    → IsDistinct (listed_urls o urls)
      × (holds u (listed_urls o urls) ≡ holds u urls || holds u (joined (tiers_of o)))
unfolding holds
listed_lem none urls u h = (h, ground arith)
listed_lem (some tiers) urls u h = add_tiers_lem urls tiers u h

first-IsDistinct : (o : Option Bytes) → IsDistinct (first_url o)
unfolding holds
first-IsDistinct none = tt
first-IsDistinct (some []) = tt
first-IsDistinct (some (c ∷ r)) = (refl, tt)

-- No tracker URL is returned twice, and the URLs that are returned are those of the announce-list
-- and the primary one, where it is there and not empty.
pub tracker_urls_lem :
    (meta : TorrentMeta) (u : Bytes)
    → IsDistinct (tracker_urls meta)
      × (holds u (tracker_urls meta)
          ≡ holds u (first_url meta.announce) || holds u (joined (tiers_of meta.announce_list)))
unfolding tracker_urls
tracker_urls_lem meta u =
    listed_lem meta.announce_list (first_url meta.announce) u (first-IsDistinct meta.announce)
