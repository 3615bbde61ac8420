-- ===== src/Base/Singleton/Tests.antt =====
-- Two threads, of which the second comes when the first has left `init`.
use tools_cxx.Prelude.{ℕ, refl, false, some, [], ◌∷◌, update_at}
use tools_cxx.Base.Singleton.{
  Pc, calling, constructing, assigning, registering, checking, returned, over, make, Singleton,
  enter, pass, construct, set_instance, register, find, Reaches, stays, goes,
}
use tools_cxx.Base.Singleton.Safety.{IsSingle, Reaches-IsSingle}

abbrev first_made : ℕ → Pc
first_made =
    update_at
      (update_at (update_at (update_at (λ t. calling) 0 constructing) 0 (assigning 4096)) 0
        registering)
      0 checking

abbrev served : Singleton
served = record {
  once = over;
  instance_at = some 4096;
  made = 4096 ∷ [];
  freed = [];
  handlers = 1;
  threads = update_at (update_at first_made 1 checking) 1 (returned 4096);
}

served-Reaches : Reaches false make served
unfolding make
served-Reaches = goes _ _ _ 0 (enter refl) (
    goes _ _ _ 0 (construct 4096) (
      goes _ _ _ 0 (set_instance 4096) (
        goes _ _ _ 0 register
          (goes _ _ _ 1 (pass refl) (goes _ _ served 1 (find 4096 refl) (stays served))))))

Reaches-IsSingle_example : IsSingle false served
Reaches-IsSingle_example = Reaches-IsSingle false served served-Reaches
