-- ===== src/PaneOps/Cycle.antt =====
-- Cycling the focus through the live panes of a tab.
