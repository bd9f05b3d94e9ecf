-- ===== src/Epoll/Table.antt =====
-- An epoll instance as a table of descriptors that refuses only what epoll_ctl(2) documents: it shows
-- that the laws of `Epoll` can hold together, and runs the tests.
use moony.Prelude.{
  ℕ, ◌≡◌, ◌≢◌, ap, if◌then◌else◌, ◌==◌, List, Option, none, some, lookup, insert, erase, nat_eq,
  lookup-insert, lookup-erase,
}
use moony.Epoll.{Entry, Op, add, mod_op, del, Epoll}

abbrev pub Table : Type 0
Table = List (ℕ × Entry)

abbrev if_absent : Option Entry → Table → Option Table
if_absent none t = some t
if_absent (some e) t = none

abbrev if_present : Option Entry → Table → Option Table
if_present none t = none
if_present (some e) t = some t

abbrev pub table_ctl : Table → Op → ℕ → Entry → Option Table
table_ctl t add fd e = if_absent (lookup fd t) (insert fd e t)
table_ctl t mod_op fd e = if_present (lookup fd t) (insert fd e t)
table_ctl t del fd e = if_present (lookup fd t) (erase fd t)

pub if_absent-some : (o : Option Entry) (t t' : Table) → if_absent o t ≡ some t' → t ≡ t'
if_absent-some none t t' h = cc
if_absent-some (some e) t t' h = cc

pub if_present-some : (o : Option Entry) (t t' : Table) → if_present o t ≡ some t' → t ≡ t'
if_present-some none t t' h = cc
if_present-some (some e) t t' h = cc

pub inserted :
    (t t' : Table) (fd : ℕ) (e : Entry)
    → insert fd e t ≡ t'
    → (j : ℕ) → lookup j t' ≡ (if fd == j then some e else lookup j t)
inserted t t' fd e h j = rw (← h) (lookup-insert j fd e t)

pub removed :
    (t t' : Table) (fd : ℕ)
    → erase fd t ≡ t'
    → (j : ℕ) → lookup j t' ≡ (if fd == j then none else lookup j t)
removed t t' fd h j = rw (← h) (lookup-erase j fd t)

pub del_succeeds :
    (t : Table) (fd : ℕ) (e e' : Entry) → lookup fd t ≡ some e → table_ctl t del fd e' ≢ none
del_succeeds t fd e e' h = rw h (λ q. cc)

abbrev pub table_epoll : Epoll
table_epoll = record {
  Kernel = Table;
  interest = λ t fd. lookup fd t;
  ctl = table_ctl;
  ctl_add = λ k k' fd e h. inserted k k' fd e (if_absent-some (lookup fd k) _ k' h);
  ctl_mod = λ k k' fd e h. inserted k k' fd e (if_present-some (lookup fd k) _ k' h);
  ctl_del = λ k k' fd e h. removed k k' fd (if_present-some (lookup fd k) _ k' h);
  eexist = λ k fd e e' h. ap (λ o. if_absent o (insert fd e' k)) h;
  enoent_mod = λ k fd e h. ap (λ o. if_present o (insert fd e k)) h;
  enoent_del = λ k fd e h. ap (λ o. if_present o (erase fd k)) h;
  del_registered = del_succeeds;
}
