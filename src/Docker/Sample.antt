-- ===== src/Docker/Sample.antt =====
-- A daemon with one container that answers every call, which shows that the laws can be met.
use mathlib.Core.Option.{some_inj}
use swirl_evo.Common.{
  ◌≡◌, ◌≢◌, refl, not, map, select, any, Bool, true, false, ◌==◌, ◌&&◌, ◌++◌, All, List, [], ◌∷◌,
  none, some, Text, codes, text_eq, if◌then◌else◌, arith, ==_iff, ==_self,
}
use swirl_evo.Docker.{
  Docker, Laws, VolumeLaws, Volume, done, not_found, found, no_container, Summary, slash, has_name,
  bare, means, streamed,
}

pub record One : Type 0 where
  pub name : Text
  pub exists : Bool
  pub is_running : Bool

abbrev pub one_id : Text
one_id = codes "c0ffee"

abbrev is_it : Text → One → Bool
is_it r s = s.exists && means r one_id s.name

abbrev pub one : Docker
one = record {
  Daemon = One;
  list = λ p s. some (
      if s.exists
      then record { id = one_id; names = (slash ++ s.name) ∷ []; is_running = s.is_running } ∷ []
      else []);
  inspect = λ r s. if is_it r s then found (slash ++ s.name) else no_container;
  stop = λ r s. if is_it r s then (done, record s { is_running = false }) else (not_found, s);
  start = λ r s. if is_it r s then (done, record s { is_running = true }) else (not_found, s);
  remove = λ volumes r s. if is_it r s then (done, record s { exists = false }) else (not_found, s);
  rename = λ r m s. if is_it r s then (done, record s { name = m }) else (not_found, s);
  ensure = λ s. (done, s);
  make = λ r s. (done, s);
  labelled = λ s. some [];
  container_id = λ r s. if is_it r s then some one_id else none;
  networks = λ p s. some [];
  remove_network = λ r s. s;
  volumes = λ p s. some [];
  remove_volume = λ force r s. s;
  secret_containers = λ p s. some [];
  secret_volumes = λ p s. some [];
  has_image = λ r s. true;
  pull_image = λ r key s. (streamed false, s);
  tag_image = λ r m s. (true, s);
  push_image = λ r key s. (streamed false, s);
}

abbrev IsNamed : Text → Text → One → Type 0
IsNamed i n s = (i ≡ one_id) × (s.name ≡ n) × (s.exists ≡ true)

listed :
    (i n p : Text) (s : One) (l : List Summary)
    → IsNamed i n s
    → one.list p s ≡ some l
    → All (λ c. means c.id i n ≡ true → has_name n c ≡ true) l
listed i n p s l h e =
    let shown : l
        ≡ record { id = one_id; names = (slash ++ s.name) ∷ []; is_running = s.is_running } ∷ [] =
      ground (arith, h, e) in
    rw shown (λ _. ground (arith, h, ==_self n), tt)

seen : (i n m : Text) (s : One) → IsNamed i n s → one.inspect i s ≡ found m → bare m ≡ n
seen i n m s h e = ground (arith, h, e)

pub one-Laws : Laws one
one-Laws = record {
  Named = IsNamed;
  Runs = λ i s. s.is_running ≡ true;
  stop-Named = λ i n r s h. ground (arith, h);
  start-Named = λ i n r s h. ground (arith, h);
  start-Runs = λ i n s h e. ground (arith, h, e, ==_self n);
  ensure-Named = λ i n s h. h;
  make-Named = λ i n r s h. h;
  remove-Named = λ i n r volumes s h a. ground (arith, h, a);
  rename-Named = λ i n m s h. ground (arith, h);
  rename-name-Named = λ i n m s h. ground (arith, h, ==_self n);
  remove_network-Named = λ i n r s h. h;
  list-Named = λ i n p s l h e. listed i n p s l h e;
  inspect-Named = λ i n m s h e. seen i n m s h e;
}

pub one-Named :
    (n : Text) (b : Bool)
    → one-Laws.Named one_id n (record { name = n; exists = true; is_running = b })
unfolding one-Laws
one-Named n b = (refl, refl, refl)

-- A daemon with volumes and a cache of images, and without containers; it may tell sizes or not.
pub record Shelf : Type 0 where
  pub volumes : List Volume
  pub images : List Text

abbrev without_size : Volume → Volume
without_size v = record v { usage = none }

abbrev pub shelf : Bool → Docker
shelf tells_sizes = record {
  Daemon = Shelf;
  list = λ p s. some [];
  inspect = λ r s. no_container;
  stop = λ r s. (not_found, s);
  start = λ r s. (not_found, s);
  remove = λ volumes r s. (not_found, s);
  rename = λ r m s. (not_found, s);
  ensure = λ s. (done, s);
  make = λ r s. (done, s);
  labelled = λ s. some [];
  container_id = λ r s. none;
  networks = λ p s. some [];
  remove_network = λ r s. s;
  volumes = λ p s. some (if tells_sizes then s.volumes else map without_size s.volumes);
  remove_volume =
      λ force r s. record s { volumes = select (λ (v : Volume). not (v.name == r)) s.volumes };
  secret_containers = λ p s. some [];
  secret_volumes = λ p s. some [];
  has_image = λ r s. any (λ i. i == r) s.images;
  pull_image = λ r key s. (streamed false, s);
  tag_image = λ r m s. (true, s);
  push_image = λ r key s. (streamed false, record s { images = r ∷ s.images });
}

abbrev Shows : Text → Shelf → Type 0
Shows v s = any (λ (w : Volume). w.name == v) s.volumes ≡ true

select-shows :
    (v r : Text) (l : List Volume)
    → r ≢ v
    → any (λ (w : Volume). w.name == v) l ≡ true
    → any (λ (w : Volume). w.name == v) (select (λ (w : Volume). not (w.name == r)) l) ≡ true
select-shows v r [] n h = h
select-shows v r (w ∷ l) n h =
    ground (arith, h, n, ==_iff w.name v, ==_iff w.name r, ==_iff r v, select-shows v r l n)

pub shelf-VolumeLaws : (b : Bool) → VolumeLaws (shelf b)
shelf-VolumeLaws b = record {
  Holds = Shows;
  stop-Holds = λ v r s h. h;
  start-Holds = λ v r s h. h;
  ensure-Holds = λ v s h. h;
  make-Holds = λ v r s h. h;
  remove-Holds = λ v r volumes s h. h;
  pull_image-Holds = λ v r key s h. h;
  tag_image-Holds = λ v r m s h. h;
  push_image-Holds = λ v r key s h. h;
  remove_network-Holds = λ v r s h. h;
  remove_volume-Holds = λ v r force s h n. select-shows v r s.volumes n h;
  secret_volumes-Holds = λ v p s l h e. rw⁻¹ (some_inj.0 e) tt;
}

pub shelf-Holds :
    (b : Bool) (v : Text) (s : Shelf)
    → any (λ (w : Volume). w.name == v) s.volumes ≡ true
    → (shelf-VolumeLaws b).Holds v s
unfolding shelf-VolumeLaws
shelf-Holds b v s h = h

without_size-All : (l : List Volume) → All (λ (v : Volume). v.usage ≡ none) (map without_size l)
without_size-All [] = tt
without_size-All (v ∷ l) = (refl, without_size-All l)

pub shelf-unsized :
    (name : Text) (s : Shelf) (l : List Volume)
    → (shelf false).volumes name s ≡ some l
    → All (λ (v : Volume). v.usage ≡ none) l
shelf-unsized name s l e = rw⁻¹ (some_inj.0 e) (without_size-All s.volumes)
