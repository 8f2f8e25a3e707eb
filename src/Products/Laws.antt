-- ===== src/Products/Laws.antt =====
-- A product from its creation to its deletion.
