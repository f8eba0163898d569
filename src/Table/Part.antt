-- ===== src/Table/Part.antt =====
-- How much of some rows a table has taken. `put` is the insert of the table: it may skip rows, and to
-- insert in two goes is to insert at once.
use lighter_timescaledb_inge.Base.{
  ◌≡◌, refl, sym, ap, ◌∙◌, List, [], ◌++◌, append_assoc, append-nil,
}

module _ {ℓ} {A : Type ℓ} (put : List A → List A → List A) where
  -- The first part of `all` has been put into the table `old`, which is `now`; the rest is left.
  pub record Part (all left old now : List A) : Type ℓ where
    pub done : List A
    pub split : done ++ left ≡ all
    pub there : now ≡ put old done

module _ {ℓ} {A : Type ℓ} (put : List A → List A → List A)
    (put-nil : (table : List A) → put table [] ≡ table) where
  pub Part-none : (all old now : List A) → now ≡ old → Part put all all old now
  Part-none all old now e = record { done = []; split = refl; there = e ∙ sym (put-nil old) }

  pub Part-all : (all old now : List A) → now ≡ put old all → Part put all [] old now
  Part-all all old now e = record { done = all; split = append-nil all; there = e }

module _ {ℓ} {A : Type ℓ} (put : List A → List A → List A)
    (put-append : (table xs ys : List A) → put table (xs ++ ys) ≡ put (put table xs) ys) where
  pub Part-then :
      (all left more left' old middle now : List A)
      → Part put all left old middle
      → Part put (left ++ more) left' middle now
      → Part put (all ++ more) left' old now
  Part-then all left more left' old middle now x y = record {
    done = x.done ++ y.done;
    split =
        append_assoc x.done y.done left'
        ∙ ap (λ l. x.done ++ l) y.split
        ∙ sym (append_assoc x.done left more)
        ∙ ap (λ l. l ++ more) x.split;
    there = y.there ∙ ap (λ t. put t y.done) x.there ∙ sym (put-append old x.done y.done);
  }

module _ {ℓ} {A : Type ℓ} (put : List A → List A → List A) where
  pub Part-whole : (all old now : List A) → Part put all [] old now → now ≡ put old all
  Part-whole all old now x = x.there ∙ ap (put old) (sym (append-nil x.done) ∙ x.split)

  pub Part-more :
      (all left more old now : List A)
      → Part put all left old now
      → Part put (all ++ more) (left ++ more) old now
  Part-more all left more old now x = record {
    done = x.done;
    split = sym (append_assoc x.done left more) ∙ ap (λ l. l ++ more) x.split;
    there = x.there;
  }

  pub Part-from :
      (all left old old' now : List A)
      → old' ≡ old
      → Part put all left old' now
      → Part put all left old now
  Part-from all left old old' now e x = record {
    done = x.done;
    split = x.split;
    there = x.there ∙ ap (λ t. put t x.done) e;
  }
