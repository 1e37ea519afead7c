-- ===== src/EventBroker/Once.antt =====
-- packages/event-broker/src/event-broker.ts: what becomes of a registration that is called once.
