-- ===== src/Orm/Save/Shape.antt =====
-- The children of an object while `Save` of orm/save.go writes the object itself.
use dyndao.Base.{ℕ, Option}
use dyndao.Orm.{Orm}
use dyndao.Orm.Keeps.{Keeps}
use dyndao.Orm.Write.Shape.{children_of, TreeHooks, live-children, update-children, insert-children}
use dyndao.Orm.Save.{save}
use dyndao.Orm.Save.Keeps.{save-Keeps}

pub save-children :
    {S : Type 0} (o : Orm S) → TreeHooks S o → (tx : Option ℕ) → Keeps children_of (save o tx)
save-children o hooks tx =
    save-Keeps o children_of tx (live-children o hooks) (insert-children o hooks tx)
      (update-children o hooks tx)
